-- ===== src/Demo/Virtualize/Layouts.antt =====
-- The layout in a band's attributes, against the arrays that the writer leaves.
use mathlib.Core.Path.{subst}
use icechest.Base.{
  ℕ, ◌+◌, String, ◌<>◌, ◌≡◌, refl, ap, sym, ◌∙◌, Bool, true, false, some, List, [], ◌∷◌, arith,
  is_empty, length, map, All,
}
use icechest.Base.Dict
use icechest.Base.Exec.{ok}
use icechest.Demo.Conventions.{
  Floats, GranuleAttrs, granule_attrs, level_path, level_asset_prefix, multiscale_layout,
}
use icechest.Demo.Conventions.Layout.{asset_of, range, multiscale_layout-levels}
use icechest.Demo.Virtualize.{
  Arrays, Row, Levels, GranuleArrays, virtual_granule, band_path, write_bands,
  write_granule_to_store, band_attrs, level_count, sort_levels,
}
use icechest.Demo.Virtualize.Declared.{WritesVariables, keys_of}
use icechest.Demo.Virtualize.Bands.{write_bands-There}
use icechest.Demo.Virtualize.Opened.{virtual_granule-Counted}

granule_attrs-layout :
    {F : Floats} (epsg : ℕ) (shape : List ℕ) (transform : List F.Float) (n : ℕ)
    (name prefix : String) (attrs : GranuleAttrs F)
    → granule_attrs F epsg shape transform n name prefix ≡ ok attrs
    → attrs.multiscales_layout ≡ multiscale_layout n name prefix
unfolding granule_attrs
granule_attrs-layout epsg shape transform n name prefix attrs built = ground arith

module _ {F : Floats} (A : Arrays F) (array_at : String → A.Store → Bool) where
  open A use {Store}

  All-map :
      (f : ℕ → String) (P : String → Type 0) (ns : List ℕ)
      → All (λ n. P (f n)) ns
      → All P (map f ns)
  All-map f P [] h = tt
  All-map f P (n ∷ ns) h = (h.0, All-map f P ns h.1)

  -- The attributes' layout is that of as many levels as were opened.
  band_attrs-layout :
      (row : Row F) (arrays : GranuleArrays A) (band : String) (n : ℕ) (attrs : GranuleAttrs F)
      → Dict.get band arrays.levels ≡ some n
      → band_attrs A row arrays band ≡ ok attrs
      → attrs.multiscales_layout ≡ multiscale_layout n band level_asset_prefix
  unfolding band_attrs level_count
  band_attrs-layout row arrays band n attrs count built =
      granule_attrs-layout {F = F} row.proj_epsg row.proj_shape row.proj_transform n band
        level_asset_prefix attrs (ground arith)

  layout-assets :
      (n : ℕ) (name prefix : String) (levels : Levels A)
      → n ≡ length levels
      → is_empty levels ≡ false
      → map asset_of (multiscale_layout n name prefix) ≡ map (level_path prefix name) (range 0 n)
  layout-assets n name prefix [] same some_level = cc
  layout-assets n name prefix (l ∷ levels) same some_level =
      let counted : n ≡ length levels + 1 = omega arith in
      subst
        (λ k.
          map asset_of (multiscale_layout k name prefix) ≡ map (level_path prefix name) (range 0 k))
        (sym counted) (multiscale_layout-levels (length levels) name prefix).0

  -- A granule that was written has every array that its bands' layouts declare: for a band whose
  -- levels were numbered from 0 on without a gap, each `asset` of the layout, read from the band's
  -- group, is the path of an array of the store.
  pub write_granule_to_store-layout :
      WritesVariables A array_at
      → (row : Row F) (bands : List String) (access band path : String) (s : Store)
        (arrays : GranuleArrays A) (levels : Levels A) (attrs : GranuleAttrs F)
      → virtual_granule A row bands access ≡ ok arrays
      → Dict.get band arrays.datasets ≡ some levels
      → keys_of A array_at (sort_levels A levels) ≡ range 0 (length levels)
      → band_attrs A row arrays band ≡ ok attrs
      → (write_granule_to_store A row bands access s).0 ≡ ok path
      → All
          (λ asset.
            array_at
              (band_path row.id band <> ("/" <> asset))
              (write_granule_to_store A row bands access s).1
            ≡ true)
          (map asset_of attrs.multiscales_layout)
  unfolding write_granule_to_store
  write_granule_to_store-layout laws row bands access band path s arrays levels attrs opened found
        keys built done =
      let counted = virtual_granule-Counted A row bands access band levels arrays opened found in
      let P : String → Type 0 = λ asset.
        array_at (band_path row.id band <> ("/" <> asset))
          (write_bands A row arrays arrays.datasets s).1
        ≡ true in
      let there =
        write_bands-There A array_at laws row arrays band {levels = levels} arrays.datasets s found
          (ground arith) in
      let declared : map asset_of attrs.multiscales_layout
          ≡ map (level_path level_asset_prefix band) (range 0 (length levels)) =
        ap (map asset_of)
          (band_attrs-layout row arrays band (length levels) attrs counted.count built)
        ∙ layout-assets (length levels) band level_asset_prefix levels refl counted.some_level in
      let last : (write_granule_to_store A row bands access s).1
          ≡ (write_bands A row arrays arrays.datasets s).1 =
        ground arith in
      subst
        (λ r.
          All (λ asset. array_at (band_path row.id band <> ("/" <> asset)) r ≡ true)
            (map asset_of attrs.multiscales_layout))
        (sym last)
        (subst (All P) (sym declared) (
          All-map (level_path level_asset_prefix band) P (range 0 (length levels))
            (subst (λ ns. All (λ n. P (level_path level_asset_prefix band n)) ns) keys there)))
