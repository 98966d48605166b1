-- ===== src/Pointer.antt =====
-- pointer.py: the pointer map of a snapshot, read from and written to its commit metadata.
use icechest.Base.{String, Option, none, some, [], ◌∷◌}
use icechest.Base.Dict
use icechest.Base.Dict.{Dict}
use icechest.Base.Exec.{Result, ok, err, ◌>>=ᵣ◌}
use icechest.Errors.{Error, external}
use icechest.Formats.{CommitMetadata, MetadataValue, text_map, null, opaque, pointer_key}
use icechest.Platform.{Platform}

-- `repo.lookup_snapshot(snapshot_id).metadata or {}`
metadata_or_empty : Option CommitMetadata → CommitMetadata
metadata_or_empty none = []
metadata_or_empty (some m) = m

-- `dict(value or {})`. A value that is no map of texts is an exception of `dict`.
as_pointers : {E : Type 0} → Option MetadataValue → Result (Error E) (Dict String)
as_pointers none = ok []
as_pointers (some (text_map d)) = ok d
as_pointers (some null) = ok []
as_pointers (some (opaque json)) = err (external json)

unfoldable pub commit_metadata : Dict String → CommitMetadata
commit_metadata pointers = (pointer_key, text_map pointers) ∷ []

module _ (P : Platform) where
  open P use {World, Expression, lookup_snapshot, lookup_branch, lookup_tag}

  unfoldable pub read_pointers : String → World → Result (Error Expression) (Dict String)
  unfolding metadata_or_empty as_pointers Dict.get
  read_pointers snapshot_id w = lookup_snapshot snapshot_id w >>=ᵣ λ metadata.
      as_pointers (Dict.get pointer_key (metadata_or_empty metadata))

  unfoldable pub read_pointers_at_branch : String → World → Result (Error Expression) (Dict String)
  read_pointers_at_branch branch w = lookup_branch branch w >>=ᵣ λ tip. read_pointers tip w

  pub read_pointers_at_tag : String → World → Result (Error Expression) (Dict String)
  read_pointers_at_tag tag w = lookup_tag tag w >>=ᵣ λ snapshot. read_pointers snapshot w
