-- ===== src/Demo/Tiff.antt =====
-- demo/tiff.py: the chain of image directories at the front of a TIFF. The header is a list of bytes,
-- each a natural number below 256.
pub mod Chain
use icechest.Base.Exec.{Result, ok, err}
use icechest.Base.{
  ℕ, zero, suc, ◌+◌, ◌*◌, Bool, true, false, not, ◌&&◌, ◌||◌, Option, none, some, List, [], ◌∷◌,
  ◌++◌, if◌then◌else◌, nat_eq, ltb, leb, length,
}

-- The byte at an index, 0 past the end. `parse_ifds` reads within the header only.
unfoldable pub byte_at : List ℕ → ℕ → ℕ
byte_at [] n = 0
byte_at (b ∷ bs) zero = b
byte_at (b ∷ bs) (suc n) = byte_at bs n

-- `struct.unpack_from(endian + "H", header, at)`, by whether the bytes are little-endian
unfoldable pub unpack_short : Bool → List ℕ → ℕ → ℕ
unfolding byte_at
unpack_short little header at =
    if little
    then byte_at header at + 256 * byte_at header (at + 1)
    else 256 * byte_at header at + byte_at header (at + 1)

-- `struct.unpack_from(endian + "I", header, at)`
unfoldable pub unpack_long : Bool → List ℕ → ℕ → ℕ
unfolding unpack_short
unpack_long little header at =
    if little
    then unpack_short little header at + 65536 * unpack_short little header (at + 2)
    else 65536 * unpack_short little header at + unpack_short little header (at + 2)

-- `HEADER_BYTES`
abbrev pub header_bytes : ℕ
header_bytes = 512 * 1024

pub data TiffError : Type 0 where
  no_byte_order_marker : TiffError
  unsupported_version : ℕ → TiffError

-- `dimensions`: width and height, as far as they were found.
pub record Dimensions : Type 0 where
  pub width : Option ℕ
  pub height : Option ℕ

abbrev image_width : ℕ
image_width = 256

abbrev image_length : ℕ
image_length = 257

abbrev type_short : ℕ
type_short = 3

-- The value of an entry, by its type.
entry_value : Bool → List ℕ → ℕ → ℕ → ℕ
entry_value little header entry kind =
    if nat_eq kind type_short
    then unpack_short little header (entry + 8)
    else unpack_long little header (entry + 8)

-- One turn of the loop over the entries.
unfoldable pub read_entry : Bool → List ℕ → ℕ → Dimensions → Dimensions
unfolding entry_value
read_entry little header entry d =
    let tag = unpack_short little header entry in
    let value = entry_value little header entry (unpack_short little header (entry + 2)) in
    if nat_eq tag image_width
    then record d { width = some value }
    else if nat_eq tag image_length
    then record d { height = some value }
    else d

-- `for index in range(count)`, from the entry at `entry` on
unfoldable pub read_entries : Bool → List ℕ → ℕ → ℕ → Dimensions → Dimensions
read_entries little header entry zero d = d
read_entries little header entry (suc count) d =
    read_entries little header (entry + 12) count (read_entry little header entry d)

-- `sizes.append(...)` if both dimensions are there
unfoldable pub size_of : Dimensions → List (ℕ × ℕ)
size_of d = elim d.width [
  | none ↦ []
  | some width ↦ elim d.height [ none ↦ [] | some height ↦ (width, height) ∷ [] ]
]

-- The directory at an offset: its size, if it has one, and the offset of the next; `none` where the
-- loop stops, at offset 0 or where the directory leaves the header.
unfoldable pub directory_at : Bool → List ℕ → ℕ → Option (List (ℕ × ℕ) × ℕ)
directory_at little header offset =
    let count = unpack_short little header offset in
    let end = offset + 2 + count * 12 in
    if nat_eq offset 0
    then none
    else if not (leb (offset + 2) (length header))
    then none
    else if ltb (length header) (end + 4)
    then none
    else some (
      size_of
          (read_entries little header (offset + 2) count (record { width = none; height = none })),
      unpack_long little header end,
    )

-- The `while` loop, for so many turns at most; `none` where it has not ended by then.
unfoldable pub follow : ℕ → Bool → List ℕ → ℕ → Option (List (ℕ × ℕ))
follow zero little header offset = none
follow (suc turns) little header offset = elim (directory_at little header offset) [
  | none ↦ some []
  | some (sizes, next) ↦ elim (follow turns little header next) [
    | none ↦ none
    | some later ↦ some (sizes ++ later)
  ]
]

-- `header[:2]`, as the byte order that it stands for: `b"II"` is little-endian, `b"MM"` big-endian
unfoldable pub byte_order : List ℕ → Option Bool
byte_order header =
    if ltb (length header) 8
    then none
    else if nat_eq (byte_at header 0) b'I' && nat_eq (byte_at header 1) b'I'
    then some true
    else if nat_eq (byte_at header 0) b'M' && nat_eq (byte_at header 1) b'M'
    then some false
    else none

-- `parse_ifds`, with so many turns of its loop
unfoldable pub parse_ifds : ℕ → List ℕ → Result TiffError (Option (List (ℕ × ℕ)))
parse_ifds turns header = elim (byte_order header) [
  | none ↦ err no_byte_order_marker
  | some little ↦
      if not (nat_eq (unpack_short little header 2) 42)
      then err (unsupported_version (unpack_short little header 2))
      else ok (follow turns little header (unpack_long little header 4))
]
