-- ===== src/Demo/Virtualize/Writing.antt =====
-- The writer of a granule, as `ingest_batch` relies on it.
use icechest.Base.{
  String, ◌≡◌, refl, true, false, Option, none, List, [], ◌∷◌, arith, is_some, is_empty, is_segment,
  ◌&&◌, ◌==◌, inl, inr,
}
use icechest.Base.Dict
use icechest.Base.Dict.{Dict}
use icechest.Base.Exec.{Result, ok, err, Result-cases}
use icechest.Demo.Conventions.{Floats}
use icechest.Demo.Ingest.{GranuleStore}
use icechest.Demo.Ingest.Staged.{OwnNode}
use icechest.Demo.Assets.{asset_urls}
use icechest.Demo.Virtualize.{
  Arrays, Row, GranuleError, GranuleArrays, open_band, open_bands, virtual_granule,
  write_granule_to_store, per_level, shape_of, asset_result, library_result,
}
use icechest.Demo.Virtualize.Paths.{OwnPaths, write_bands-others, write_bands-there}

module _ {F : Floats} (A : Arrays F) {Node : Type 0} (node : String → A.Store → Option Node) where
  open A use {Dataset, Store, to_icechunk, open_group, update_attrs}

  insert-ne-nil :
      {V : Type 0} (k : String) (v : V) (d : Dict V) → is_empty (Dict.insert k v d) ≡ false
  unfolding Dict.insert
  insert-ne-nil k v [] = refl
  insert-ne-nil k v ((j, w) ∷ d) = ground arith

  open_band-some_band :
      (band url : String) (arrays arrays' : GranuleArrays A)
      → open_band A band url arrays ≡ ok arrays'
      → is_empty arrays'.datasets ≡ false
  unfolding open_band
  open_band-some_band band url arrays arrays' done =
      elim (Result-cases (library_result (A.open_pyramid url))) [
        | inr (e, failed) ↦ ground arith
        | inl (children, opened) ↦ elim (Result-cases (per_level A children [])) [
          | inr (e, failed) ↦ ground arith
          | inl (found, read) ↦ elim (Result-cases (shape_of A arrays.shape found)) [
            | inr (e, failed) ↦ ground arith
            | inl (shape, known) ↦ ground (arith, insert-ne-nil band found arrays.datasets)
          ]
        ]
      ]

  open_bands-some_band :
      (urls : Dict String) (arrays arrays' : GranuleArrays A)
      → (is_empty urls && is_empty arrays.datasets) ≡ false
      → open_bands A urls arrays ≡ ok arrays'
      → is_empty arrays'.datasets ≡ false
  unfolding open_bands
  open_bands-some_band [] arrays arrays' some_url done = ground arith
  open_bands-some_band ((band, url) ∷ urls) arrays arrays' some_url done =
      elim (Result-cases (open_band A band url arrays)) [
        | inl (next, opened) ↦ ground (
          arith,
          open_band-some_band band url arrays next opened,
          open_bands-some_band urls next arrays',
        )
        | inr (e, failed) ↦ ground arith
      ]

  virtual_granule-some_band :
      (row : Row F) (bands : List String) (access : String) (arrays : GranuleArrays A)
      → virtual_granule A row bands access ≡ ok arrays
      → is_empty arrays.datasets ≡ false
  unfolding virtual_granule
  virtual_granule-some_band row bands access arrays done =
      elim (Result-cases (asset_result (asset_urls row.assets bands access))) [
        | inr (e, failed) ↦ ground arith
        | inl (urls, listed) ↦
            let none_yet : GranuleArrays A = record { datasets = []; levels = []; shape = none } in
            elim (Result-cases (open_bands A urls none_yet)) [
              | inr (e, failed) ↦ ground arith
              | inl (found, opened) ↦ ground (arith, open_bands-some_band urls none_yet found)
            ]
      ]

  module _ (laws : OwnPaths A node) where
    write_granule-others :
        (row : Row F) (bands : List String) (access j : String) (s : Store)
        → is_segment row.id ≡ true
        → is_segment j ≡ true
        → (row.id == j) ≡ false
        → node j (write_granule_to_store A row bands access s).1 ≡ node j s
    unfolding write_granule_to_store
    write_granule-others row bands access j s segment segment_j differ =
        elim (Result-cases (virtual_granule A row bands access)) [
          | inr (e, failed) ↦ ground arith
          | inl (arrays, opened) ↦ ground (
            arith,
            write_bands-others A node laws row j arrays arrays.datasets s segment segment_j differ,
          )
        ]

    write_granule-there :
        (row : Row F) (bands : List String) (access path : String) (s : Store)
        → is_segment row.id ≡ true
        → (write_granule_to_store A row bands access s).0 ≡ ok path
        → is_some (node row.id (write_granule_to_store A row bands access s).1) ≡ true
    unfolding write_granule_to_store
    write_granule-there row bands access path s segment done =
        elim (Result-cases (virtual_granule A row bands access)) [
          | inr (e, failed) ↦ ground arith
          | inl (arrays, opened) ↦ ground (
            arith,
            virtual_granule-some_band row bands access arrays opened,
            write_bands-there A node laws row arrays arrays.datasets s segment,
          )
        ]

  -- The granule store of `ingest_batch` with its default writer. `delete_dir` is Zarr's, and
  -- `text_of` is `str` of an exception.
  module _ (text_of : GranuleError → String)
      (delete_dir : String → Store → Result String (Unit {0}) × Store) (bands : List String)
      (access : String) where
    text_result : {B : Type 0} → Result GranuleError B → Result String B
    text_result (ok b) = ok b
    text_result (err e) = err (text_of e)

    -- `write_granule`
    unfoldable pub write_granule : Row F → Store → Result String String × Store
    unfolding text_result
    write_granule row s =
        let (r, s') = write_granule_to_store A row bands access s in (text_result r, s')

    unfoldable pub granule_store : GranuleStore
    granule_store = record {
      Row = Row F;
      Store = Store;
      Node = Node;
      row_id = λ row. row.id;
      node = node;
      writer = write_granule;
      delete_dir = delete_dir;
    }

    -- What is documented of the deletion of a top-level node.
    pub record Deletes : Type 0 where
      pub others :
          (id j : String) (s : Store)
          → is_segment id ≡ true
          → is_segment j ≡ true
          → (id == j) ≡ false
          → node j (delete_dir id s).1 ≡ node j s
      pub gone :
          (id : String) (s : Store)
          → is_segment id ≡ true
          → (delete_dir id s).0 ≡ ok tt
          → node id (delete_dir id s).1 ≡ none

    -- The writer of a granule meets what the loop of `ingest_batch` relies on, where the calls of
    -- the libraries concern the paths that they are given: for an id that is a single segment, it
    -- touches no other granule, and when it returns there is a node for its own.
    pub granule_store-OwnNode : OwnPaths A node → Deletes → OwnNode granule_store
    unfolding granule_store write_granule
    granule_store-OwnNode laws deletes = record {
      write_others = λ row j s segment segment_j differ.
          write_granule-others laws row bands access j s segment segment_j differ;
      written = λ row path s segment done.
          write_granule-there laws row bands access path s segment (ground arith);
      delete_others = deletes.others;
      deleted = deletes.gone;
    }
