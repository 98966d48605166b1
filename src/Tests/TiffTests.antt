-- ===== src/Tests/TiffTests.antt =====
-- Two headers of one directory each: 64 by 32, the last one; and one that names itself as the next.
use icechest.Base.{
  ℕ, ◌≡◌, ◌∙◌, sym, ap, refl, Bool, true, none, some, List, [], ◌∷◌, arith, nat_eq, ltb, ◌||◌, ◌&&◌,
}
use icechest.Base.Exec.{ok}
use icechest.Demo.Tiff.{
  byte_at, unpack_short, unpack_long, read_entry, read_entries, size_of, directory_at, follow,
  byte_order, parse_ifds,
}
use icechest.Demo.Tiff.Chain.{parse_ifds-ends, parse_ifds-loops}

abbrev image : List ℕ
image =
    73 ∷ 73 ∷ 42 ∷ 0 ∷ 8 ∷ 0 ∷ 0 ∷ 0 ∷ 2 ∷ 0 ∷ 0 ∷ 1 ∷ 3 ∷ 0 ∷ 1 ∷ 0 ∷ 0 ∷ 0 ∷ 64 ∷ 0 ∷ 0 ∷ 0 ∷ 1
    ∷ 1 ∷ 3 ∷ 0 ∷ 1 ∷ 0 ∷ 0 ∷ 0 ∷ 32 ∷ 0 ∷ 0 ∷ 0 ∷ 0 ∷ 0 ∷ 0 ∷ 0 ∷ []

abbrev ring : List ℕ
ring = 73 ∷ 73 ∷ 42 ∷ 0 ∷ 8 ∷ 0 ∷ 0 ∷ 0 ∷ 0 ∷ 0 ∷ 8 ∷ 0 ∷ 0 ∷ 0 ∷ []

abbrev at_eight : ℕ → Bool
at_eight at = nat_eq at 8

image_size : parse_ifds 2 image ≡ ok (some ((64, 32) ∷ []))
unfolding parse_ifds follow directory_at read_entries read_entry size_of byte_order unpack_long
    unpack_short byte_at
image_size = refl

is_eight : (at : ℕ) → at_eight at ≡ true → at ≡ 8
is_eight at h = ground arith

image-forward :
    (at next : ℕ) (sizes : List (ℕ × ℕ))
    → at_eight at ≡ true
    → directory_at true image at ≡ some (sizes, next)
    → (nat_eq next 0 || (ltb at next && at_eight next)) ≡ true
unfolding directory_at read_entries read_entry size_of unpack_long unpack_short byte_at
image-forward at next sizes here found =
    let moved : directory_at true image 8 ≡ some (sizes, next) =
      sym (ap (directory_at true image) (is_eight at here)) ∙ found in
    ground (arith, moved)

parse_ifds-ends_example : (sizes : List (ℕ × ℕ)) × (parse_ifds 39 image ≡ ok (some sizes))
unfolding byte_order unpack_long unpack_short byte_at
parse_ifds-ends_example = parse_ifds-ends true image at_eight refl refl refl image-forward

ring-closed :
    (at : ℕ)
    → at_eight at ≡ true
    → (sizes : List (ℕ × ℕ)) × (next : ℕ) × (directory_at true ring at ≡ some (sizes, next))
      × (at_eight next ≡ true)
unfolding directory_at read_entries read_entry size_of unpack_long unpack_short byte_at
ring-closed at here = ([], 8, rw (is_eight at here) refl, refl)

parse_ifds-loops_example : parse_ifds 1000 ring ≡ ok none
unfolding byte_order unpack_long unpack_short byte_at
parse_ifds-loops_example = parse_ifds-loops true ring at_eight 1000 refl refl refl ring-closed
