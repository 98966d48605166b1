-- ===== src/Demo/Virtualize/Paths.antt =====
-- Where the writes of a granule go.
use icechest.Base.{
  String, ◌<>◌, ◌≡◌, refl, true, false, Option, [], ◌∷◌, arith, is_some, is_empty, is_segment,
  decimal, ◌==◌, inl, inr,
}
use icechest.Base.Dict.{Dict}
use icechest.Base.Exec.{ok, Result-cases}
use icechest.Demo.Conventions.{Floats, GranuleAttrs}
use icechest.Demo.Assets.{to_vcc_url}
use icechest.Demo.Virtualize.{
  Arrays, Row, Levels, GranuleArrays, level_group, band_path, write_level, write_levels, write_band,
  write_bands, leveled, band_attrs, href_of, sort_levels, asset_result,
}

-- A path below the granule `id`.
abbrev pub below : String → String → String
below id rest = "/" <> (id <> ("/" <> rest))

module _ {F : Floats} (A : Arrays F) {Node : Type 0} (node : String → A.Store → Option Node) where
  open A use {Dataset, Store, to_icechunk, open_group, update_attrs}

  -- What is documented of paths: a write below `/id` concerns the top-level node `id` alone, where
  -- names are single segments; and a group that has attributes is there.
  pub record OwnPaths : Type 0 where
    pub level_others :
        (id rest j : String) (d : Dataset) (s : Store)
        → is_segment id ≡ true
        → is_segment j ≡ true
        → (id == j) ≡ false
        → node j (to_icechunk (below id rest) d s).1 ≡ node j s
    pub group_others :
        (id rest j : String) (s : Store)
        → is_segment id ≡ true
        → is_segment j ≡ true
        → (id == j) ≡ false
        → node j (open_group (below id rest) s).1 ≡ node j s
    pub attrs_others :
        (id rest j : String) (attrs : GranuleAttrs F) (s : Store)
        → is_segment id ≡ true
        → is_segment j ≡ true
        → (id == j) ≡ false
        → node j (update_attrs (below id rest) attrs s).1 ≡ node j s
    pub attrs_there :
        (id rest : String) (attrs : GranuleAttrs F) (s : Store)
        → is_segment id ≡ true
        → (update_attrs (below id rest) attrs s).0 ≡ ok tt
        → is_some (node id (update_attrs (below id rest) attrs s).1) ≡ true

  module _ (laws : OwnPaths) where
    module _ (id j : String) (segment : is_segment id ≡ true) (segment_j : is_segment j ≡ true)
        (differ : (id == j) ≡ false) where
      write_levels-others :
          (band reference : String) (levels : Levels A) (s : Store)
          → node j (write_levels A id band reference levels s).1 ≡ node j s
      unfolding write_levels write_level level_group
      write_levels-others band reference [] s = refl
      write_levels-others band reference ((level, d) ∷ levels) s =
          let rest = band <> ("/" <> ("multiscales" <> ("/" <> decimal level))) in
          elim (Result-cases (leveled A band reference d)) [
            | inl (renamed, done) ↦
                let s' = (to_icechunk (below id rest) renamed s).1 in
                ground (
                  arith,
                  laws.level_others id rest j renamed s segment segment_j differ,
                  write_levels-others band reference levels s',
                )
            | inr (e, failed) ↦ ground arith
          ]

    write_band-others :
        (row : Row F) (j : String) (arrays : GranuleArrays A) (band : String) (levels : Levels A)
        (s : Store)
        → is_segment row.id ≡ true
        → is_segment j ≡ true
        → (row.id == j) ≡ false
        → node j (write_band A row arrays band levels s).1 ≡ node j s
    unfolding write_band band_path
    write_band-others row j arrays band levels s segment segment_j differ =
        elim (Result-cases (href_of A row band)) [
          | inr (e, failed) ↦ ground arith
          | inl (href, listed) ↦ elim (Result-cases (asset_result (to_vcc_url href))) [
            | inr (e, failed) ↦ ground arith
            | inl (reference, made) ↦
                let s₁ = (write_levels A row.id band reference (sort_levels A levels) s).1 in
                let s₂ = (open_group (below row.id band) s₁).1 in
                let kept =
                  write_levels-others row.id j segment segment_j differ band reference
                    (sort_levels A levels) s in
                let grouped = laws.group_others row.id band j s₁ segment segment_j differ in
                elim (Result-cases (band_attrs A row arrays band)) [
                  | inr (e, failed) ↦ ground (arith, kept, grouped)
                  | inl (attrs, built) ↦ ground (
                    arith,
                    kept,
                    grouped,
                    laws.attrs_others row.id band j attrs s₂ segment segment_j differ,
                  )
                ]
          ]
        ]

    pub write_bands-others :
        (row : Row F) (j : String) (arrays : GranuleArrays A) (datasets : Dict (Levels A))
        (s : Store)
        → is_segment row.id ≡ true
        → is_segment j ≡ true
        → (row.id == j) ≡ false
        → node j (write_bands A row arrays datasets s).1 ≡ node j s
    unfolding write_bands
    write_bands-others row j arrays [] s segment segment_j differ = refl
    write_bands-others row j arrays ((band, levels) ∷ rest) s segment segment_j differ =
        let s' = (write_band A row arrays band levels s).1 in
        ground (
          arith,
          write_band-others row j arrays band levels s segment segment_j differ,
          write_bands-others row j arrays rest s' segment segment_j differ,
        )

    -- A band that was written leaves the granule's node.
    write_band-there :
        (row : Row F) (arrays : GranuleArrays A) (band : String) (levels : Levels A) (s : Store)
        → is_segment row.id ≡ true
        → (write_band A row arrays band levels s).0 ≡ ok tt
        → is_some (node row.id (write_band A row arrays band levels s).1) ≡ true
    unfolding write_band band_path
    write_band-there row arrays band levels s segment done =
        elim (Result-cases (href_of A row band)) [
          | inr (e, failed) ↦ ground arith
          | inl (href, listed) ↦ elim (Result-cases (asset_result (to_vcc_url href))) [
            | inr (e, failed) ↦ ground arith
            | inl (reference, made) ↦
                let s₁ = (write_levels A row.id band reference (sort_levels A levels) s).1 in
                let s₂ = (open_group (below row.id band) s₁).1 in
                elim (Result-cases (band_attrs A row arrays band)) [
                  | inr (e, failed) ↦ ground arith
                  | inl (attrs, built) ↦
                      ground (arith, laws.attrs_there row.id band attrs s₂ segment)
                ]
          ]
        ]

    pub write_bands-there :
        (row : Row F) (arrays : GranuleArrays A) (datasets : Dict (Levels A)) (s : Store)
        → is_segment row.id ≡ true
        → is_empty datasets ≡ false
        → (write_bands A row arrays datasets s).0 ≡ ok tt
        → is_some (node row.id (write_bands A row arrays datasets s).1) ≡ true
    unfolding write_bands
    write_bands-there row arrays [] s segment some_band done = cc
    write_bands-there row arrays ((band, levels) ∷ []) s segment some_band done =
        ground (arith, write_band-there row arrays band levels s)
    write_bands-there row arrays ((band, levels) ∷ next ∷ rest) s segment some_band done = ground (
      arith,
      write_bands-there row arrays (next ∷ rest) (write_band A row arrays band levels s).1,
    )
