-- ===== src/Demo/Hash.antt =====
-- demo/hash.py: the hash of each granule row, and the block of it by which the table is partitioned.
pub mod Blocks
use icechest.Base.{
  ℕ, ◌+◌, ◌-◌, ◌/◌, ◌^◌, String, Bool, Option, none, some, List, [], ◌∷◌, if◌then◌else◌, ltb,
  is_empty, not, ◌&&◌, any, is_some, length,
}
use icechest.Base.Exec.{Result, ok, err, ◌>>=ᵣ◌}

abbrev pub hash_column : String
hash_column = "stac_hash"

abbrev pub hash_block_column : String
hash_block_column = "stac_hash_block"

-- `HASH_START` and `HASH_END`, as year, month and day in UTC
abbrev hash_start : ℕ × ℕ × ℕ
hash_start = (2013, 1, 1)

abbrev hash_end : ℕ × ℕ × ℕ
hash_end = (2036, 1, 1)

-- `hasher`, by the library's `Hasher`; its cache holds one and the same value.
abbrev hasher {ℓ} : {Hasher : Type ℓ} → (ℕ × ℕ × ℕ → ℕ × ℕ × ℕ → Hasher) → Hasher
hasher new_hasher = new_hasher hash_start hash_end

abbrev pub partition_bits : ℕ
partition_bits = 12

-- The columns of a batch that are read here, and the hasher of `stac_hash` over the fixed extent,
-- which takes datetimes and points, each record for itself, clamping onto the boundary, or raises.
-- A null of the columns is a value of `Datetime` and of `Float`.
pub record Hashing : Type 1 where
  pub Row : Type 0
  pub Datetime : Type 0
  pub Float : Type 0
  -- `pc.divide(pc.add(low, high), 2.0)`
  pub centre : Float → Float → Float
  pub datetime : Row → Datetime
  -- `xmin`, `ymin`, `xmax` and `ymax`, `none` where the bbox is null
  pub bbox : Row → Option (Float × Float × Float × Float)
  pub hash_clamped : Datetime → Float → Float → Result String ℕ

pub data HashError : Type 0 where
  no_bbox : ℕ → HashError
  not_hashed : String → HashError
  negative_shift : HashError

-- `value >> shift`
unfoldable pub shift_right : ℕ → ℕ → ℕ
shift_right value shift = value / 2 ^ shift

module _ (H : Hashing) where
  open H use {Row, Float, centre, datetime, bbox, hash_clamped}

  -- `bbox.null_count`
  unfoldable pub null_count : List Row → ℕ
  null_count [] = 0
  null_count (row ∷ rows) = if is_some (bbox row) then null_count rows else null_count rows + 1

  -- A row with its two new columns.
  pub record HashedRow : Type 0 where
    pub row : Row
    pub stac_hash : ℕ
    pub stac_hash_block : ℕ

  -- The hash at the centre of the bbox; a row without one is refused before.
  unfoldable pub hash_of : Row → Result String ℕ
  hash_of row = elim (bbox row) [
    | none ↦ err "no bbox"
    | some (xmin, ymin, xmax, ymax) ↦
        hash_clamped (datetime row) (centre xmin xmax) (centre ymin ymax)
  ]

  unfoldable pub hashed : ℕ → Row → ℕ → HashedRow
  hashed bits row code = record {
    row = row;
    stac_hash = code;
    stac_hash_block = shift_right code (63 - bits);
  }

  -- `hash_all_clamped`, and the columns that are made of what it gives
  unfoldable pub hashed_all : ℕ → List Row → Result String (List HashedRow)
  hashed_all bits [] = ok []
  hashed_all bits (row ∷ rows) =
      hash_of row >>=ᵣ λ code. hashed_all bits rows >>=ᵣ λ rest. ok (hashed bits row code ∷ rest)

  -- `with_stac_hash(rows, partition_bits=bits)`
  unfoldable pub with_stac_hash : ℕ → List Row → Result HashError (List HashedRow)
  with_stac_hash bits rows =
      if ltb 0 (null_count rows)
      then err (no_bbox (null_count rows))
      else elim (hashed_all bits rows) [
        | err e ↦ err (not_hashed e)
        | ok out ↦ if ltb 63 bits && not (is_empty rows) then err negative_shift else ok out
      ]
