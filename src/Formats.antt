-- ===== src/Formats.antt =====
-- The two maps through which a store carries its tables: commit metadata, and Zarr attributes.
use icechest.Base.{String, List}
use icechest.Base.Dict.{Dict}

-- A value of the commit metadata: a map of texts, `null` (or another value that Python takes for
-- false), or any other value by its JSON text.
pub data MetadataValue : Type 0 where
  text_map : Dict String → MetadataValue
  null : MetadataValue
  opaque : String → MetadataValue

abbrev pub CommitMetadata : Type 0
CommitMetadata = Dict MetadataValue

abbrev pub pointer_key : String
pointer_key = "iceberg:table_versions"

-- An attribute of a Zarr group.
pub data Attribute : Type 0 where
  -- `null`, or a number or Boolean that Python takes for false
  null : Attribute
  text : String → Attribute
  objects : List (Dict String) → Attribute
  table_map : Dict (Dict String) → Attribute
  -- any other true value, by its JSON text; the model takes it for malformed, also where it is a map of
  -- objects of which some hold other values than texts, which `declare` would merge
  opaque : String → Attribute

abbrev pub Attributes : Type 0
Attributes = Dict Attribute
