-- ===== src/Base/Exec.antt =====
-- Calls that may raise and may change state. What was written before a raise stays written, so
-- the state comes back beside the error too.
use mathlib.Core.Path.{◌≡◌, refl}
use mathlib.Core.Logic.{◌⊎◌, inl, inr}
use mathlib.Core.Bool.{Bool}
use icechest.Base.Tests.{if◌then◌else◌}

pub data Result (E A : Type 0) : Type 0 where
  ok : A → Result E A
  err : E → Result E A

abbrev pub Exec : Type 0 → Type 0 → Type 0 → Type 0
Exec S E A = S → Result E A × S

module _ {S E A : Type 0} where
  abbrev pub pure : A → Exec S E A
  pure a s = (ok a, s)

  abbrev pub raise : E → Exec S E A
  raise e s = (err e, s)

  abbrev pub gets : (S → A) → Exec S E A
  gets f s = (ok (f s), s)

  -- A call that reads the state and may raise.
  abbrev pub reads : (S → Result E A) → Exec S E A
  reads f s = (f s, s)

  abbrev pub lift : Result E A → Exec S E A
  lift r s = (r, s)

  -- `try`: the outcome as a value.
  abbrev pub attempt : Exec S E A → Exec S E (Result E A)
  attempt m s = let (r, s') = m s in (ok r, s')

abbrev pub modify : {S E : Type 0} → (S → S) → Exec S E (Unit {0})
modify f s = (ok tt, f s)

abbrev pub raise_if : {S E : Type 0} → Bool → E → Exec S E (Unit {0})
raise_if b e s = (if b then err e else ok tt, s)

infixl 5 ◌>>=◌ ◌>>◌
abbrev pub ◌>>=◌ : {S E A B : Type 0} → Exec S E A → (A → Exec S E B) → Exec S E B
◌>>=◌ m f s = let (r, s') = m s in elim r [ ok a ↦ f a s' | err e ↦ (err e, s') ]

abbrev pub ◌>>◌ : {S E A B : Type 0} → Exec S E A → Exec S E B → Exec S E B
m >> k = m >>= λ _. k

-- A pure call that may raise.
infixl 5 ◌>>=ᵣ◌
abbrev pub ◌>>=ᵣ◌ : {E A B : Type 0} → Result E A → (A → Result E B) → Result E B
r >>=ᵣ f = elim r [ ok a ↦ f a | err e ↦ err e ]

pub Result-cases :
    {E A : Type 0} (r : Result E A) → ((a : A) × (r ≡ ok a)) ⊎ ((e : E) × (r ≡ err e))
Result-cases (ok a) = inl (a, refl)
Result-cases (err e) = inr (e, refl)

-- What a chain of two calls that returns says of each.
pub bind-ok :
    {S E A B : Type 0} (m : Exec S E A) (f : A → Exec S E B) (s : S) {b : B} {s' : S}
    → (m >>= f) s ≡ (ok b, s')
    → (a : A) × (t : S) × (m s ≡ (ok a, t)) × (f a t ≡ (ok b, s'))
bind-ok {S} {E} {A} {B} m f s {b} {s'} h = go (m s) refl h
  where
    go :
        (x : Result E A × S)
        → m s ≡ x
        → (elim x.0 [ ok a ↦ f a x.1 | err e ↦ (err e, x.1) ]) ≡ (ok b, s')
        → (a : A) × (t : S) × (m s ≡ (ok a, t)) × (f a t ≡ (ok b, s'))
    go (ok a, t) ran done = (a, t, ran, done)
    go (err e, t) ran done = cc
