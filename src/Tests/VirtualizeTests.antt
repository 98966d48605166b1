-- ===== src/Tests/VirtualizeTests.antt =====
-- A granule with one band of two levels, written into a store of paths.
use text.Mathlib.TextLemmas.{nil-append, cons-append}
use icechest.Base.{
  ℕ, String, ◌<>◌, ◌≡◌, ◌∙◌, ap, refl, Bool, true, false, ◌||◌, Option, none, some, List, [], ◌∷◌,
  arith, map, any, All, is_segment, is_slash, ◌==◌, eq_refl, if◌then◌else◌, decimal,
}
use icechest.Base.Dict
use icechest.Base.Dict.{Dict}
use icechest.Base.Exec.{Result, ok}
use icechest.Demo.Assets.{
  asset_urls, collect_urls, asset_url, asset_key, usable_href, to_s3_url, to_vcc_url, strip_prefix,
}
use icechest.Demo.Conventions.{
  Floats, GranuleAttrs, granule_attrs, multiscale_layout, level_asset_prefix,
  multiscales_convention, proj_convention, spatial_convention,
}
use icechest.Demo.Conventions.Layout.{asset_of}
use icechest.Demo.Ingest.Staged.{OwnNode}
use icechest.Demo.Virtualize.{
  Arrays, Row, Levels, GranuleArrays, write_granule_to_store, virtual_granule, band_attrs,
  sort_levels, band_path, open_bands, open_band, write_bands, write_band, write_levels, write_level,
  leveled,
}
use icechest.Demo.Virtualize.Paths.{OwnPaths, below}
use icechest.Demo.Virtualize.Writing.{Deletes, granule_store, granule_store-OwnNode}
use icechest.Demo.Virtualize.Declared.{WritesVariables, keys_of}
use icechest.Demo.Virtualize.Layouts.{write_granule_to_store-layout}

-- The top-level nodes, and the arrays.
record Paths : Type 0 where
  tops : String → Option String
  arrays : String → Bool

abbrev until_slash : String → String
until_slash String.[] = String.[]
until_slash (String.◌∷◌ c s) = if is_slash c then String.[] else String.◌∷◌ c (until_slash s)

-- The first name of an absolute path.
abbrev top : String → String
top String.[] = String.[]
top (String.◌∷◌ c s) = until_slash s

until_slash-below :
    (id rest : String) → is_segment id ≡ true → until_slash (id <> ("/" <> rest)) ≡ id
until_slash-below String.[] rest h =
    ap until_slash (nil-append ("/" <> rest)) ∙ ap until_slash (cons-append "/" String.[] rest)
until_slash-below (String.◌∷◌ c id) rest h =
    ap until_slash (cons-append c id ("/" <> rest)) ∙ ground (arith, until_slash-below id rest)

top-below : (id rest : String) → is_segment id ≡ true → top (below id rest) ≡ id
top-below id rest h =
    ap top (cons-append "/" String.[] (id <> ("/" <> rest)))
    ∙ ap until_slash (nil-append (id <> ("/" <> rest)))
    ∙ until_slash-below id rest h

abbrev put : String → Option String → Paths → Paths
put path node s = record s { tops = λ j. if top path == j then node else s.tops j }

abbrev counts : Floats
counts = record { Float = ℕ; add = λ a b. a; mul = λ a b. a; of_int = λ n. n }

-- A dataset is the list of its variables.
abbrev paths : Arrays counts
paths = record {
  Dataset = List String;
  Store = Paths;
  open_pyramid = λ url. ok (("1", "1" ∷ []) ∷ ("0", "0" ∷ []) ∷ []);
  int_of = λ key. if key == "0" then some 0 else if key == "1" then some 1 else none;
  sizes = λ d. some (40, 40);
  data_vars = λ d. d;
  rename = λ old new d. map (λ v. if v == old then new else v) d;
  rename_paths = λ reference d. d;
  to_icechunk = λ group d s. (
    ok tt,
    record (put group (some "group") s) {
      arrays = λ path. any (λ v. (group <> ("/" <> v)) == path) d || s.arrays path;
    },
  );
  open_group = λ path s. (ok tt, put path (some "group") s);
  update_attrs = λ path attrs s. (ok tt, put path (some "group") s);
}

abbrev at : String → Paths → Option String
at j s = s.tops j

paths-OwnPaths : OwnPaths paths at
paths-OwnPaths = record {
  level_others = λ id rest j d s segment segment_j differ. ground (arith, top-below id rest);
  group_others = λ id rest j s segment segment_j differ. ground (arith, top-below id rest);
  attrs_others = λ id rest j attrs s segment segment_j differ. ground (arith, top-below id rest);
  attrs_there = λ id rest attrs s segment done. ground (arith, top-below id rest, eq_refl id);
}

paths-WritesVariables : WritesVariables paths (λ path s. s.arrays path)
paths-WritesVariables = record {
  written = λ group variable d s one done. ground (arith, eq_refl (group <> ("/" <> variable)));
  level_keeps = λ group path d s there. ground arith;
  group_keeps = λ group path s there. there;
  attrs_keep = λ group path attrs s there. there;
  renamed = λ old new reference d one. ground (arith, eq_refl old);
}

abbrev delete : String → Paths → Result String (Unit {0}) × Paths
delete id s = (ok tt, record s { tops = λ j. if id == j then none else s.tops j })

deletes : Deletes paths at (λ e. "failed") delete ("B01" ∷ []) "s3"
deletes = record {
  others = λ id j s segment segment_j differ. ground arith;
  gone = λ id s segment done. ground (arith, eq_refl id);
}

granule_store-OwnNode_example :
    OwnNode (granule_store paths at (λ e. "failed") delete ("B01" ∷ []) "s3")
granule_store-OwnNode_example =
    granule_store-OwnNode paths at (λ e. "failed") delete ("B01" ∷ []) "s3" paths-OwnPaths deletes

abbrev row : Row counts
row = record {
  id = "G";
  assets =
      (
        "B01",
        some (record {
          href = some "https://data.lpdaac.earthdatacloud.nasa.gov/lp-prod-protected/B01.tif";
        }),
      )
      ∷ [];
  proj_shape = 40 ∷ 40 ∷ [];
  proj_epsg = 32631;
  proj_transform = 30 ∷ 0 ∷ 7 ∷ 0 ∷ 30 ∷ 9 ∷ 0 ∷ 0 ∷ 1 ∷ [];
}

abbrev two_levels : Levels paths
two_levels = (1, "1" ∷ []) ∷ (0, "0" ∷ []) ∷ []

abbrev opened : GranuleArrays paths
opened = record {
  datasets = ("B01", two_levels) ∷ [];
  levels = ("B01", 2) ∷ [];
  shape = some (40, 40);
}

abbrev attrs : GranuleAttrs counts
attrs = record {
  zarr_conventions = multiscales_convention ∷ proj_convention ∷ spatial_convention ∷ [];
  proj_code = "EPSG:32631";
  spatial_shape = 40 ∷ 40 ∷ [];
  spatial_dimensions = "y" ∷ "x" ∷ [];
  spatial_transform = 30 ∷ 0 ∷ 7 ∷ 0 ∷ 30 ∷ 9 ∷ [];
  spatial_bbox = 7 ∷ 9 ∷ 7 ∷ 9 ∷ [];
  multiscales_layout = multiscale_layout 2 "B01" level_asset_prefix;
}

abbrev empty : Paths
empty = record { tops = λ j. none; arrays = λ path. false }

write_granule_to_store-layout_example :
    All
      (λ asset.
        (write_granule_to_store paths row ("B01" ∷ []) "s3" empty).1.arrays
          (band_path "G" "B01" <> ("/" <> asset))
        ≡ true)
      (map asset_of (multiscale_layout 2 "B01" level_asset_prefix))
unfolding virtual_granule asset_urls collect_urls asset_url asset_key usable_href to_s3_url
    to_vcc_url strip_prefix Dict.get Dict.insert open_bands open_band sort_levels band_attrs
    granule_attrs decimal write_granule_to_store write_bands write_band write_levels write_level
    leveled keys_of
write_granule_to_store-layout_example =
    write_granule_to_store-layout paths (λ path s. s.arrays path) paths-WritesVariables row
      ("B01" ∷ []) "s3" "B01" "/G" empty opened two_levels attrs refl refl refl refl refl
