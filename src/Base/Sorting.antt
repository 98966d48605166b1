-- ===== src/Base/Sorting.antt =====
-- Python's `sorted` over texts, and `sorted` over a set of numbers.
use Prim.Native.Nat.{ℕ, ◌<◌, Ordering}
use Prim.Native.String.{String, compare}
use mathlib.Core.Path.{◌≡◌, refl}
use mathlib.Core.Bool.{Bool, true, false, ◌||◌}
use mathlib.Core.List.{List, [], ◌∷◌}
use native.Mathlib.Omega.{arith}
use icechest.Base.Tests.{ltb, nat_eq, if◌then◌else◌}
use icechest.Base.Lists.{any, all}

-- By code points, which is the order of the UTF-8 bytes too.
abbrev text_le : String → String → Bool
text_le s t = elim (compare s t) [ Ordering.gt ↦ false | _ ↦ true ]

insert_text : String → List String → List String
insert_text x [] = x ∷ []
insert_text x (y ∷ ys) = if text_le x y then x ∷ y ∷ ys else y ∷ insert_text x ys

unfoldable pub sort_texts : List String → List String
unfolding insert_text
sort_texts [] = []
sort_texts (x ∷ xs) = insert_text x (sort_texts xs)

any-insert_text :
    (p : String → Bool) (x : String) (xs : List String)
    → any p (insert_text x xs) ≡ (p x || any p xs)
unfolding insert_text
any-insert_text p x [] = refl
any-insert_text p x (y ∷ ys) = ground (arith, any-insert_text p x ys)

-- Sorting keeps what the list holds.
pub any-sort_texts : (p : String → Bool) (xs : List String) → any p (sort_texts xs) ≡ any p xs
unfolding sort_texts
any-sort_texts p [] = refl
any-sort_texts p (x ∷ xs) = ground (arith, any-sort_texts p xs, any-insert_text p x (sort_texts xs))

-- A number put into a strictly ascending list, unless it is there.
insert_number : ℕ → List ℕ → List ℕ
insert_number x [] = x ∷ []
insert_number x (y ∷ ys) =
    if ltb x y then x ∷ y ∷ ys else if nat_eq x y then y ∷ ys else y ∷ insert_number x ys

-- `sorted({...})`
unfoldable pub sorted_set : List ℕ → List ℕ
unfolding insert_number
sorted_set [] = []
sorted_set (x ∷ xs) = insert_number x (sorted_set xs)

-- Each number is below all those behind it.
abbrev pub IsAscending : List ℕ → Type 0
IsAscending [] = Unit
IsAscending (x ∷ xs) = (all (ltb x) xs ≡ true) × IsAscending xs

all-insert_number :
    (p : ℕ → Bool) (x : ℕ) (xs : List ℕ)
    → p x ≡ true
    → all p xs ≡ true
    → all p (insert_number x xs) ≡ true
unfolding insert_number
all-insert_number p x [] h k = ground arith
all-insert_number p x (y ∷ ys) h k = ground (arith, all-insert_number p x ys)

all-ltb_trans : (x y : ℕ) (ys : List ℕ) → x < y → all (ltb y) ys ≡ true → all (ltb x) ys ≡ true
all-ltb_trans x y [] h k = refl
all-ltb_trans x y (z ∷ zs) h k = ground (arith, all-ltb_trans x y zs)

insert_number-IsAscending :
    (x : ℕ) (xs : List ℕ) → IsAscending xs → IsAscending (insert_number x xs)
unfolding insert_number
insert_number-IsAscending x [] h = (refl, tt)
insert_number-IsAscending x (y ∷ ys) h =
    ground
      (arith, insert_number-IsAscending x ys, all-ltb_trans x y ys, all-insert_number (ltb y) x ys)

pub sorted_set-IsAscending : (xs : List ℕ) → IsAscending (sorted_set xs)
unfolding sorted_set
sorted_set-IsAscending [] = tt
sorted_set-IsAscending (x ∷ xs) =
    insert_number-IsAscending x (sorted_set xs) (sorted_set-IsAscending xs)

any-insert_number :
    (p : ℕ → Bool) (x : ℕ) (xs : List ℕ) → any p (insert_number x xs) ≡ (p x || any p xs)
unfolding insert_number
any-insert_number p x [] = refl
any-insert_number p x (y ∷ ys) = ground (arith, any-insert_number p x ys)

-- A set holds what it was made from.
pub any-sorted_set : (p : ℕ → Bool) (xs : List ℕ) → any p (sorted_set xs) ≡ any p xs
unfolding sorted_set
any-sorted_set p [] = refl
any-sorted_set p (x ∷ xs) =
    ground (arith, any-sorted_set p xs, any-insert_number p x (sorted_set xs))
