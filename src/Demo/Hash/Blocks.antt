-- ===== src/Demo/Hash/Blocks.antt =====
-- The blocks of a batch's hashes.
use icechest.Base.{
  ℕ, String, Mem, mem-cons_self, mem-cons_of_mem, ◌+◌, ◌*◌, ◌^◌, ◌≤◌, ◌<◌, ◌≡◌, refl, true, false,
  List, [], ◌∷◌, arith, map, All, all, is_some, ltb, ◌⊎◌, inl, inr, Bool-cases,
}
use icechest.Base.Exec.{ok, err, Result-cases}
use icechest.Demo.Hash.{
  Hashing, HashedRow, no_bbox, not_hashed, hash_of, hashed, hashed_all, shift_right, null_count,
  with_stac_hash, partition_bits,
}

module _ (H : Hashing) where
  open H use {Row, bbox}

  -- What `with_stac_hash` gives each row with the default bits.
  pub record IsBlocked (r : HashedRow H) : Type 0 where
    pub hash_is : hash_of H r.row ≡ ok r.stac_hash
    pub lower : r.stac_hash_block * 2 ^ 51 ≤ r.stac_hash
    pub upper : r.stac_hash < r.stac_hash_block * 2 ^ 51 + 2 ^ 51
    pub small : r.stac_hash_block < 4096

  hashed-IsBlocked :
      (row : Row) (code : ℕ)
      → hash_of H row ≡ ok code
      → code < 2 ^ 63
      → IsBlocked (hashed H partition_bits row code)
  unfolding hashed shift_right
  hashed-IsBlocked row code is h = record {
    hash_is = is;
    lower = omega arith;
    upper = omega arith;
    small = omega arith;
  }

  null_count-eq-zero :
      (rows : List Row) → all (λ row. is_some (bbox row)) rows ≡ true → null_count H rows ≡ 0
  unfolding null_count
  null_count-eq-zero [] h = refl
  null_count-eq-zero (row ∷ rows) h = ground (arith, null_count-eq-zero rows)

  null_count_pos :
      (rows : List Row)
      → all (λ row. is_some (bbox row)) rows ≡ false
      → ltb 0 (null_count H rows) ≡ true
  unfolding null_count
  null_count_pos [] h = cc
  null_count_pos (row ∷ rows) h = ground (arith, null_count_pos rows)

  -- A row whose hash the hasher refuses, with its error.
  pub record IsRefused (rows : List Row) (e : String) : Type 0 where
    row : Row
    among : Mem row rows
    refused : hash_of H row ≡ err e

  module _ (codes : (row : Row) (code : ℕ) → hash_of H row ≡ ok code → code < 2 ^ 63) where
    hashed_all-IsBlocked :
        (rows : List Row)
        → ((out : List (HashedRow H)) × (hashed_all H partition_bits rows ≡ ok out)
            × (map (λ r. r.row) out ≡ rows)
            × All IsBlocked out)
          ⊎ ((e : String) × (hashed_all H partition_bits rows ≡ err e) × IsRefused rows e)
    unfolding hashed_all hashed
    hashed_all-IsBlocked [] = inl ([], refl, refl, tt)
    hashed_all-IsBlocked (row ∷ rows) = elim (Result-cases (hash_of H row)) [
      | inr (e, refused) ↦
          inr (e, ground arith, record { row = row; among = mem-cons_self; refused = refused })
      | inl (code, is) ↦ elim (hashed_all-IsBlocked rows) [
        | inl (out, done, same, blocked) ↦ inl (
          hashed H partition_bits row code ∷ out,
          ground arith,
          ground arith,
          (hashed-IsBlocked row code is (codes row code is), blocked),
        )
        | inr (e, failed, h) ↦ inr (
          e,
          ground arith,
          record { row = h.row; among = mem-cons_of_mem row h.among; refused = h.refused },
        )
      ]
    ]

    -- With the default bits, where a hash that the hasher gives is of 63 bits: a batch in which each
    -- row has a bbox, and has a hash, keeps its rows in their order, each with the hash of its centre,
    -- and with a block below 4096 that holds the hash among its 2 ^ 51 codes; one in which each row has
    -- a bbox is refused with the hasher's error for one of its rows otherwise; any other batch is
    -- refused with the number of rows that lack a bbox.
    pub with_stac_hash-blocks :
        (rows : List Row)
        → ((all (λ row. is_some (bbox row)) rows ≡ true)
            × (((out : List (HashedRow H)) × (with_stac_hash H partition_bits rows ≡ ok out)
                  × (map (λ r. r.row) out ≡ rows)
                  × All IsBlocked out)
                ⊎ ((e : String) × (with_stac_hash H partition_bits rows ≡ err (not_hashed e))
                    × IsRefused rows e)))
          ⊎ ((all (λ row. is_some (bbox row)) rows ≡ false)
              × (with_stac_hash H partition_bits rows ≡ err (no_bbox (null_count H rows)))
              × (0 < null_count H rows))
    unfolding with_stac_hash
    with_stac_hash-blocks rows = elim (Bool-cases (all (λ row. is_some (bbox row)) rows)) [
      | inl full ↦
          let counted = null_count-eq-zero rows full in
          inl (
            full,
            elim (hashed_all-IsBlocked rows) [
              | inl (out, done, same, blocked) ↦ inl (out, ground arith, same, blocked)
              | inr (e, failed, h) ↦ inr (e, ground arith, h)
            ],
          )
      | inr lacking ↦ inr (
        lacking,
        ground (arith, null_count_pos rows lacking),
        ground (arith, null_count_pos rows lacking),
      )
    ]
