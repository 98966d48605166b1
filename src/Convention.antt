-- ===== src/Convention.antt =====
-- convention.py: the `iceberg:` convention in the attributes of a Zarr group.
pub mod Declaring
pub mod Bindings
use icechest.Base.{
  ℕ, suc, String, Bool, true, false, not, ◌&&◌, Option, none, some, List, [], ◌∷◌, ◌++◌, ◌==◌,
  if◌then◌else◌, any, all, length, nat_eq, is_empty_text,
}
use icechest.Base.Dict
use icechest.Base.Dict.{Dict}
use icechest.Base.Exec.{Result, ok, err, ◌>>=ᵣ◌}
use icechest.Errors.{Error, malformed_attributes}
use icechest.Formats.{Attribute, null, text, objects, table_map, opaque, Attributes}

abbrev pub convention_uuid : String
convention_uuid = "66da9667-d40f-46cb-93a5-7c915af5f7dc"

abbrev convention_name : String
convention_name = "iceberg:"

abbrev pub convention_version : String
convention_version = "1"

abbrev pub conventions_key : String
conventions_key = "zarr_conventions"

abbrev pub tables_attr : String
tables_attr = "iceberg:tables"

abbrev pub version_attr : String
version_attr = "iceberg:version"

abbrev pub convention_metadata_object : Dict String
convention_metadata_object =
    ("uuid", convention_uuid)
    ∷ (
      "schema_url",
      "https://raw.githubusercontent.com/developmentseed/icechest/refs/tags/v1/conventions/icechunk-iceberg/schema.json",
    )
    ∷ (
      "spec_url",
      "https://github.com/developmentseed/icechest/blob/v1/conventions/icechunk-iceberg/README.md",
    )
    ∷ ("name", convention_name)
    ∷ (
      "description",
      "Binds a Zarr group to Apache Iceberg tables describing its arrays, with the current table version resolved from the Icechunk snapshot.",
    )
    ∷ []

pub record TableBinding : Type 0 where
  pub location : String

unfoldable pub to_attrs : TableBinding → Dict String
to_attrs b = ("location", b.location) ∷ []

-- `raw["location"]`, a `KeyError` where it is missing
unfoldable pub from_attrs : {E : Type 0} → Dict String → Result (Error E) TableBinding
from_attrs raw = elim (Dict.get "location" raw) [
  | none ↦ err malformed_attributes
  | some location ↦ ok (record { location = location })
]

-- `{name: b.to_attrs() for name, b in bindings.items()}`
unfoldable pub all_to_attrs : Dict TableBinding → Dict (Dict String)
unfolding to_attrs
all_to_attrs [] = []
all_to_attrs ((name, b) ∷ bindings) = (name, to_attrs b) ∷ all_to_attrs bindings

-- `{name: TableBinding.from_attrs(b) for name, b in raw.items()}`
unfoldable pub all_from_attrs :
    {E : Type 0} → Dict (Dict String) → Result (Error E) (Dict TableBinding)
unfolding from_attrs
all_from_attrs [] = ok []
all_from_attrs ((name, raw) ∷ rest) =
    from_attrs raw >>=ᵣ λ b. all_from_attrs rest >>=ᵣ λ bindings. ok ((name, b) ∷ bindings)

-- `list(attrs.get("zarr_conventions") or [])`
unfoldable pub declared_conventions :
    {E : Type 0} → Option Attribute → Result (Error E) (List (Dict String))
declared_conventions none = ok []
declared_conventions (some null) = ok []
declared_conventions (some (objects cmos)) = ok cmos
declared_conventions (some (text s)) = if is_empty_text s then ok [] else err malformed_attributes
declared_conventions (some (table_map [])) = ok []
declared_conventions (some (table_map _)) = err malformed_attributes
declared_conventions (some (opaque _)) = err malformed_attributes

-- `dict(attrs.get("iceberg:tables") or {})`, where each table is an object of texts; a map with other
-- values is opaque here, and taken for malformed
unfoldable pub declared_tables :
    {E : Type 0} → Option Attribute → Result (Error E) (Dict (Dict String))
declared_tables none = ok []
declared_tables (some null) = ok []
declared_tables (some (table_map tables)) = ok tables
declared_tables (some (text s)) = if is_empty_text s then ok [] else err malformed_attributes
declared_tables (some (objects [])) = ok []
declared_tables (some (objects _)) = err malformed_attributes
declared_tables (some (opaque _)) = err malformed_attributes

-- `cmo.get("uuid") == CONVENTION_UUID`
unfoldable pub is_ours : Dict String → Bool
is_ours cmo = elim (Dict.get "uuid" cmo) [ none ↦ false | some uuid ↦ uuid == convention_uuid ]

-- `declared.append(...)` unless a declaration is there
unfoldable pub register : List (Dict String) → List (Dict String)
unfolding is_ours
register declared =
    if any is_ours declared then declared else declared ++ convention_metadata_object ∷ []

-- `==` on the dicts of Python: as many keys, and the same value at each.
module _ {V : Type 0} (same : V → V → Bool) where
  abbrev same_at : Dict V → String × V → Bool
  same_at e (k, v) = elim (Dict.get k e) [ none ↦ false | some w ↦ same v w ]

  unfoldable pub same_dict : Dict V → Dict V → Bool
  same_dict d e = nat_eq (length d) (length e) && all (same_at e) d

abbrev pub same_object : Dict String → Dict String → Bool
same_object = same_dict ◌==◌

unfoldable pub same_list : List (Dict String) → List (Dict String) → Bool
same_list [] [] = true
same_list (x ∷ xs) (y ∷ ys) = same_object x y && same_list xs ys
same_list _ _ = false

unfoldable pub same_attribute : Attribute → Attribute → Bool
same_attribute null null = true
same_attribute (text s) (text t) = s == t
same_attribute (objects xs) (objects ys) = same_list xs ys
same_attribute (table_map d) (table_map e) = same_dict same_object d e
same_attribute (opaque s) (opaque t) = s == t
same_attribute _ _ = false

-- The three attributes that `declare` writes.
unfoldable pub declaration : List (Dict String) → Dict (Dict String) → Attributes
declaration declared tables =
    (conventions_key, objects declared)
    ∷ (version_attr, text convention_version)
    ∷ (tables_attr, table_map tables)
    ∷ []

-- `all(attrs.get(k) == v for k, v in updated.items())`
unfoldable pub holds_already : Attributes → Attributes → Bool
unfolding same_attribute
holds_already attrs updated = all (same_at same_attribute attrs) updated

-- `declare`: what it hands to `group.attrs.update`, nothing where it returns without writing.
unfoldable pub declare :
    {E : Type 0} → Dict TableBinding → Attributes → Result (Error E) (Option Attributes)
unfolding declared_conventions declared_tables
declare bindings attrs = declared_conventions (Dict.get conventions_key attrs) >>=ᵣ λ declared.
    declared_tables (Dict.get tables_attr attrs) >>=ᵣ λ tables.
    let updated = declaration (register declared) (Dict.update tables (all_to_attrs bindings)) in
    ok (if holds_already attrs updated then none else some updated)

-- The attributes after `declare`, by the documented effect of `attrs.update`.
unfoldable pub after_declare : Attributes → Option Attributes → Attributes
after_declare attrs none = attrs
after_declare attrs (some updated) = Dict.update attrs updated

unfoldable pub read_bindings : {E : Type 0} → Attributes → Result (Error E) (Dict TableBinding)
unfolding declared_tables
read_bindings attrs = declared_tables (Dict.get tables_attr attrs) >>=ᵣ all_from_attrs

unfoldable pub is_declared : {E : Type 0} → Attributes → Result (Error E) Bool
unfolding declared_conventions is_ours
is_declared attrs =
    declared_conventions (Dict.get conventions_key attrs) >>=ᵣ λ declared. ok (any is_ours declared)
