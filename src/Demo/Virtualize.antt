-- ===== src/Demo/Virtualize.antt =====
-- demo/virtualize.py: opening a granule's pyramids, and writing its arrays and attributes.
pub mod Paths
pub mod Writing
pub mod Declared
pub mod Bands
pub mod Opened
pub mod Layouts
pub mod Reading
use icechest.Base.{
  ℕ, zero, suc, String, ◌<>◌, Bool, true, false, not, ◌&&◌, Option, none, some, List, [], ◌∷◌, ◌++◌,
  if◌then◌else◌, nat_eq, leb, is_empty, length, decimal,
}
use icechest.Base.Dict
use icechest.Base.Dict.{Dict}
use icechest.Base.Exec.{Result, ok, err, Exec, pure, raise, lift, ◌>>=◌, ◌>>◌, ◌>>=ᵣ◌}
use icechest.Demo.Assets.{Asset, AssetError, asset_urls, usable_href, to_vcc_url}
use icechest.Demo.Conventions.{
  Floats, GranuleAttrs, granule_attrs, item, TooShort, multiscales_group, level_asset_prefix,
}

-- What VirtualiZarr, xarray, Icechunk and Zarr are called for. Their exceptions are texts.
pub record Arrays (F : Floats) : Type 1 where
  -- a virtual dataset, and the store of a session
  pub Dataset : Type 0
  pub Store : Type 0
  -- `open_pyramid(url, registry).children`, each child as a dataset
  pub open_pyramid : String → Result String (List (String × Dataset))
  -- Python's `int` of a text
  pub int_of : String → Option ℕ
  -- `sizes["y"]` and `sizes["x"]`
  pub sizes : Dataset → Option (ℕ × ℕ)
  pub data_vars : Dataset → List String
  -- `dataset.rename({old: new})`
  pub rename : String → String → Dataset → Dataset
  pub rename_paths : String → Dataset → Dataset
  -- `to_icechunk(store=..., group=..., mode="a", validate_containers=False)`
  pub to_icechunk : String → Dataset → Store → Result String (Unit {0}) × Store
  -- `zarr.open_group(store, path=..., mode="a")`, and `attrs.update` on it
  pub open_group : String → Store → Result String (Unit {0}) × Store
  pub update_attrs : String → GranuleAttrs F → Store → Result String (Unit {0}) × Store

-- An item of the archive, as far as the writer reads it.
pub record Row (F : Floats) : Type 0 where
  pub id : String
  pub assets : Dict (Option Asset)
  pub proj_shape : List ℕ
  pub proj_epsg : ℕ
  pub proj_transform : List F.Float

-- `GranuleError`, one constructor for each place, and what else is raised.
pub data GranuleError : Type 0 where
  no_assets : List String → GranuleError
  no_levels : String → GranuleError
  shape_disagrees : ℕ × ℕ → ℕ × ℕ → GranuleError
  not_one_variable : String → List String → GranuleError
  asset : AssetError → GranuleError
  too_short : GranuleError
  key_error : GranuleError
  not_an_int : String → GranuleError
  raised : String → GranuleError

abbrev pub asset_result : {A : Type 0} → Result AssetError A → Result GranuleError A
asset_result (ok a) = ok a
asset_result (err e) = err (asset e)

abbrev pub item_result : {A : Type 0} → Result TooShort A → Result GranuleError A
item_result (ok a) = ok a
item_result (err e) = err too_short

abbrev pub library_result : {A : Type 0} → Result String A → Result GranuleError A
library_result (ok a) = ok a
library_result (err e) = err (raised e)

-- `f"/{granule_id}/{band}"`, and the group of a level below it
unfoldable pub band_path : String → String → String
band_path granule_id band = "/" <> (granule_id <> ("/" <> band))

unfoldable pub level_group : String → String → ℕ → String
level_group granule_id band level =
    "/" <> (granule_id <> ("/" <> (band <> ("/" <> (multiscales_group <> ("/" <> decimal level))))))

module _ {F : Floats} (A : Arrays F) where
  open A use {
    Dataset, Store, open_pyramid, int_of, sizes, data_vars, rename, rename_paths, to_icechunk,
    open_group, update_attrs,
  }

  -- A dict keyed by level, in insertion order.
  abbrev pub Levels : Type 0
  Levels = List (ℕ × Dataset)

  unfoldable pub insert_level : ℕ → Dataset → Levels → Levels
  insert_level n d [] = (n, d) ∷ []
  insert_level n d ((m, e) ∷ levels) =
      if nat_eq m n then (m, d) ∷ levels else (m, e) ∷ insert_level n d levels

  unfoldable pub level_at : ℕ → Levels → Option Dataset
  level_at n [] = none
  level_at n ((m, d) ∷ levels) = if nat_eq m n then some d else level_at n levels

  -- `{int(key): node.to_dataset() for key, node in tree.children.items()}`
  unfoldable pub per_level : List (String × Dataset) → Levels → Result GranuleError Levels
  unfolding insert_level
  per_level [] levels = ok levels
  per_level ((key, d) ∷ children) levels = elim (int_of key) [
    | none ↦ err (not_an_int key)
    | some n ↦ per_level children (insert_level n d levels)
  ]

  -- `GranuleArrays`, while it is built: the shape is there from the first band on.
  pub record GranuleArrays : Type 0 where
    pub datasets : Dict Levels
    pub levels : Dict ℕ
    pub shape : Option (ℕ × ℕ)

  -- The shape of the first band's finest level.
  unfoldable pub shape_of : Option (ℕ × ℕ) → Levels → Result GranuleError (ℕ × ℕ)
  unfolding level_at
  shape_of (some shape) levels = ok shape
  shape_of none levels = elim (level_at 0 levels) [
    | none ↦ err key_error
    | some d ↦ elim (sizes d) [ none ↦ err key_error | some shape ↦ ok shape ]
  ]

  -- One turn of the loop over `urls.items()`
  unfoldable pub open_band : String → String → GranuleArrays → Result GranuleError GranuleArrays
  unfolding per_level shape_of
  open_band band url arrays = library_result (open_pyramid url) >>=ᵣ λ children.
      per_level children [] >>=ᵣ λ found.
      if is_empty found
      then err (no_levels band)
      else shape_of arrays.shape found >>=ᵣ λ shape. ok (record {
        datasets = Dict.insert band found arrays.datasets;
        levels = Dict.insert band (length found) arrays.levels;
        shape = some shape;
      })

  unfoldable pub open_bands : Dict String → GranuleArrays → Result GranuleError GranuleArrays
  open_bands [] arrays = ok arrays
  open_bands ((band, url) ∷ urls) arrays =
      open_band band url arrays >>=ᵣ λ arrays'. open_bands urls arrays'

  same_shape : Option (ℕ × ℕ) → ℕ × ℕ → Bool
  same_shape none shape = false
  same_shape (some (y, x)) (y', x') = nat_eq y y' && nat_eq x x'

  shape_or : ℕ × ℕ → Option (ℕ × ℕ) → ℕ × ℕ
  shape_or shape none = shape
  shape_or shape (some found) = found

  -- `virtual_granule`
  unfoldable pub virtual_granule : Row F → List String → String → Result GranuleError GranuleArrays
  unfolding item same_shape shape_or
  virtual_granule row bands access = asset_result (asset_urls row.assets bands access) >>=ᵣ λ urls.
      if is_empty urls
      then err (no_assets bands)
      else open_bands urls (record { datasets = []; levels = []; shape = none }) >>=ᵣ λ arrays.
          item_result (item row.proj_shape 0) >>=ᵣ λ y.
          item_result (item row.proj_shape 1) >>=ᵣ λ x.
          if same_shape arrays.shape (y, x)
          then ok arrays
          else err (shape_disagrees (y, x) (shape_or (y, x) arrays.shape))

  -- `sorted(per_level.items())`: the levels are distinct, and alone decide.
  insert_sorted : ℕ → Dataset → Levels → Levels
  insert_sorted n d [] = (n, d) ∷ []
  insert_sorted n d ((m, e) ∷ levels) =
      if leb n m then (n, d) ∷ (m, e) ∷ levels else (m, e) ∷ insert_sorted n d levels

  unfoldable pub sort_levels : Levels → Levels
  unfolding insert_sorted
  sort_levels [] = []
  sort_levels ((n, d) ∷ levels) = insert_sorted n d (sort_levels levels)

  abbrev pub StoreExec : Type 0 → Type 0
  StoreExec = Exec Store GranuleError

  -- A call of a library on the store.
  abbrev pub on_store : (Store → Result String (Unit {0}) × Store) → StoreExec (Unit {0})
  on_store f s = let (r, s') = f s in (library_result r, s')

  -- The one variable of a level, under the band's name and with the recorded reference.
  unfoldable pub leveled : String → String → Dataset → Result GranuleError Dataset
  leveled band reference d = elim (data_vars d) [
    | [] ↦ err (not_one_variable band [])
    | variable ∷ others ↦
        if is_empty others
        then ok (rename_paths reference (rename variable band d))
        else err (not_one_variable band (variable ∷ others))
  ]

  unfoldable pub write_level : String → String → String → ℕ → Dataset → StoreExec (Unit {0})
  write_level granule_id band reference level d = do
    renamed ← lift (leveled band reference d)
    on_store (to_icechunk (level_group granule_id band level) renamed)

  unfoldable pub write_levels : String → String → String → Levels → StoreExec (Unit {0})
  write_levels granule_id band reference [] = pure tt
  write_levels granule_id band reference ((level, d) ∷ levels) =
      write_level granule_id band reference level d >> write_levels granule_id band reference levels

  -- `arrays.levels[band]`
  unfoldable pub level_count : String → GranuleArrays → Result GranuleError ℕ
  level_count band arrays = elim (Dict.get band arrays.levels) [
    | none ↦ err key_error
    | some n ↦ ok n
  ]

  -- `row["assets"][band]["href"]`
  href_of : Row F → String → Result GranuleError String
  href_of row band = elim (usable_href (Dict.get band row.assets)) [
    | none ↦ err key_error
    | some href ↦ ok href
  ]

  -- The attributes of a band group.
  unfoldable pub band_attrs : Row F → GranuleArrays → String → Result GranuleError (GranuleAttrs F)
  unfolding level_count
  band_attrs row arrays band = level_count band arrays >>=ᵣ λ levels. item_result (
      granule_attrs F row.proj_epsg row.proj_shape row.proj_transform levels band
        level_asset_prefix)

  -- One turn of the loop over `arrays.datasets.items()`
  unfoldable pub write_band : Row F → GranuleArrays → String → Levels → StoreExec (Unit {0})
  unfolding href_of
  write_band row arrays band levels = do
    href ← lift (href_of row band)
    reference ← lift (asset_result (to_vcc_url href))
    write_levels row.id band reference (sort_levels levels)
    on_store (open_group (band_path row.id band))
    attrs ← lift (band_attrs row arrays band)
    on_store (update_attrs (band_path row.id band) attrs)

  unfoldable pub write_bands : Row F → GranuleArrays → Dict Levels → StoreExec (Unit {0})
  write_bands row arrays [] = pure tt
  write_bands row arrays ((band, levels) ∷ rest) =
      write_band row arrays band levels >> write_bands row arrays rest

  -- `write_granule_to_store`, and `write_granule`, which hands it the store of the session
  unfoldable pub write_granule_to_store : Row F → List String → String → StoreExec String
  write_granule_to_store row bands access = do
    arrays ← lift (virtual_granule row bands access)
    write_bands row arrays arrays.datasets
    pure ("/" <> row.id)
