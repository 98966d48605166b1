-- ===== src/Tests/HashTests.antt =====
-- Two rows with a bbox, and a batch with a row that has none.
use icechest.Base.{
  String, ℕ, ◌+◌, ◌/◌, ◌^◌, ◌<◌, ◌≡◌, refl, true, false, none, some, List, [], ◌∷◌, arith, map, All,
  all, is_some, if◌then◌else◌, nat_eq, leb, ◌⊎◌,
}
use icechest.Base.Exec.{ok, err}
use icechest.Demo.Hash.{
  Hashing, HashedRow, hash_of, with_stac_hash, null_count, no_bbox, not_hashed, partition_bits,
  hashed_all, hashed, shift_right,
}
use icechest.Demo.Hash.Blocks.{IsBlocked, IsRefused, with_stac_hash-blocks}

-- A row is its western edge, none at 0, and a hash is the centre, if that is not too large.
abbrev pub edges : Hashing
edges = record {
  Row = ℕ;
  Datetime = Unit {0};
  Float = ℕ;
  centre = λ low high. (low + high) / 2;
  datetime = λ row. tt;
  bbox = λ row. if nat_eq row 0 then none else some (row, 0, row + 2, 0);
  hash_clamped = λ time x y. ok (if leb x 5000000000000000 then x else 5000000000000000);
}

edges-codes : (row code : ℕ) → hash_of edges row ≡ ok code → code < 2 ^ 63
unfolding hash_of
edges-codes row code is = ground arith

abbrev rows : List ℕ
rows = 4 ∷ 4503599627370496 ∷ []

with_stac_hash-blocks_example :
    ((all (λ row. is_some (edges.bbox row)) rows ≡ true)
      × (((out : List (HashedRow edges)) × (with_stac_hash edges partition_bits rows ≡ ok out)
            × (map (λ r. r.row) out ≡ rows)
            × All (IsBlocked edges) out)
          ⊎ ((e : String) × (with_stac_hash edges partition_bits rows ≡ err (not_hashed e))
              × IsRefused edges rows e)))
    ⊎ ((all (λ row. is_some (edges.bbox row)) rows ≡ false)
        × (with_stac_hash edges partition_bits rows ≡ err (no_bbox (null_count edges rows)))
        × (0 < null_count edges rows))
with_stac_hash-blocks_example = with_stac_hash-blocks edges edges-codes rows

hashed_rows :
    with_stac_hash edges partition_bits rows
    ≡ ok (
        record { row = 4; stac_hash = 5; stac_hash_block = 0 }
        ∷ record { row = 4503599627370496; stac_hash = 4503599627370497; stac_hash_block = 2 }
        ∷ [])
unfolding with_stac_hash null_count hashed_all hashed hash_of shift_right
hashed_rows = refl
