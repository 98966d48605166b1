-- ===== src/Demo/Tiff/Chain.antt =====
-- When the walk of the chain of directories ends.
use icechest.Base.{
  ℕ, zero, suc, ◌+◌, ◌*◌, ◌≤◌, ◌≡◌, refl, Bool, true, ◌||◌, ◌&&◌, none, some, List, [], ◌++◌, arith,
  nat_eq, ltb, length, inl, inr, Option-cases, Bool-cases,
}
use icechest.Demo.Tiff.{directory_at, follow, unpack_short, unpack_long, byte_order, parse_ifds}
use icechest.Base.Exec.{ok}

-- A directory that is read lies in the header, the offset of the next one included.
directory_at-bound :
    (little : Bool) (header : List ℕ) (offset : ℕ) {found : List (ℕ × ℕ) × ℕ}
    → directory_at little header offset ≡ some found
    → offset + 2 + unpack_short little header offset * 12 + 4 ≤ length header
unfolding directory_at
directory_at-bound little header offset h = ground arith

directory_at-zero : (little : Bool) (header : List ℕ) → directory_at little header 0 ≡ none
unfolding directory_at
directory_at-zero little header = refl

-- A chain that goes forward is walked to its end within as many turns as the header has bytes, and
-- one more.
follow-ends :
    (little : Bool) (header : List ℕ) (chain : ℕ → Bool) (offset turns : ℕ)
    → ((at next : ℕ) (sizes : List (ℕ × ℕ))
        → chain at ≡ true
        → directory_at little header at ≡ some (sizes, next)
        → (nat_eq next 0 || (ltb at next && chain next)) ≡ true)
    → chain offset ≡ true
    → length header ≤ turns + offset
    → (sizes : List (ℕ × ℕ)) × (follow (suc turns) little header offset ≡ some sizes)
unfolding follow
follow-ends little header chain offset zero forward here enough =
    elim (Option-cases (directory_at little header offset)) [
      | inl ended ↦ ([], ground arith)
      | inr (read, found) ↦ absurd (omega (arith, directory_at-bound little header offset found))
    ]
follow-ends little header chain offset (suc turns) forward here enough =
    elim (Option-cases (directory_at little header offset)) [
      | inl ended ↦ ([], ground arith)
      | inr ((sizes, next), found) ↦
          let on = forward offset next sizes here found in
          elim (Bool-cases (nat_eq next 0)) [
            | inl last ↦ (sizes ++ [], ground (arith, directory_at-zero little header))
            | inr more ↦
                let (later, ends) =
                  follow-ends little header chain next turns forward (ground arith)
                    (ground arith) in
                (sizes ++ later, ground (arith, found, ends))
          ]
    ]

-- A chain that comes back to directories that it has passed is walked for ever: where each of a set
-- of offsets has a directory that names an offset of the set, the loop from there ends in no
-- number of turns.
follow-loops :
    (little : Bool) (header : List ℕ) (cycle : ℕ → Bool)
    → ((at : ℕ)
        → cycle at ≡ true
        → (sizes : List (ℕ × ℕ)) × (next : ℕ) × (directory_at little header at ≡ some (sizes, next))
          × (cycle next ≡ true))
    → (turns offset : ℕ) → cycle offset ≡ true
    → follow turns little header offset ≡ none
unfolding follow
follow-loops little header cycle closed zero offset h = refl
follow-loops little header cycle closed (suc turns) offset h =
    let (sizes, next, found, again) = closed offset h in
    ground (arith, found, follow-loops little header cycle closed turns next again)

-- Where the chain of a well-formed header, from the first directory on, goes forward, each directory
-- naming offset 0 or a later one of the chain, `parse_ifds` returns, after at most one turn for each
-- byte of the header and one more.
pub parse_ifds-ends :
    (little : Bool) (header : List ℕ) (chain : ℕ → Bool)
    → byte_order header ≡ some little
    → unpack_short little header 2 ≡ 42
    → chain (unpack_long little header 4) ≡ true
    → ((at next : ℕ) (sizes : List (ℕ × ℕ))
        → chain at ≡ true
        → directory_at little header at ≡ some (sizes, next)
        → (nat_eq next 0 || (ltb at next && chain next)) ≡ true)
    → (sizes : List (ℕ × ℕ)) × (parse_ifds (suc (length header)) header ≡ ok (some sizes))
unfolding parse_ifds
parse_ifds-ends little header chain order version first forward =
    let (sizes, ends) =
      follow-ends little header chain (unpack_long little header 4) (length header) forward first
        (omega arith) in
    (sizes, ground (arith, order, version, ends))

-- Where the chain of a well-formed header comes back to directories that it has passed, `parse_ifds`
-- does not return: its loop has not ended after any number of turns.
pub parse_ifds-loops :
    (little : Bool) (header : List ℕ) (cycle : ℕ → Bool) (turns : ℕ)
    → byte_order header ≡ some little
    → unpack_short little header 2 ≡ 42
    → cycle (unpack_long little header 4) ≡ true
    → ((at : ℕ)
        → cycle at ≡ true
        → (sizes : List (ℕ × ℕ)) × (next : ℕ) × (directory_at little header at ≡ some (sizes, next))
          × (cycle next ≡ true))
    → parse_ifds turns header ≡ ok none
unfolding parse_ifds
parse_ifds-loops little header cycle turns order version first closed =
    let endless =
      follow-loops little header cycle closed turns (unpack_long little header 4) first in
    ground (arith, order, version, endless)
