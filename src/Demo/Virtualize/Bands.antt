-- ===== src/Demo/Virtualize/Bands.antt =====
-- The arrays of the bands that the writer has been through.
use mathlib.Core.Path.{subst}
use icechest.Base.{String, ◌≡◌, sym, Bool, some, [], ◌∷◌, arith, ◌==◌, eq_iff, inl, inr, Bool-cases}
use icechest.Base.Dict
use icechest.Base.Dict.{Dict, get-insert}
use icechest.Base.Exec.{ok, Result-cases}
use icechest.Demo.Assets.{to_vcc_url}
use icechest.Demo.Conventions.{Floats}
use icechest.Demo.Virtualize.{
  Arrays, Row, Levels, GranuleArrays, band_path, write_levels, write_band, write_bands, band_attrs,
  href_of, sort_levels, asset_result,
}
use icechest.Demo.Virtualize.Declared.{
  WritesVariables, There, keys_of, Keeps, There-Keeps, write_levels-Keeps, write_levels-There,
}

module _ {F : Floats} (A : Arrays F) (array_at : String → A.Store → Bool) where
  open A use {
    Dataset, Store, data_vars, rename, rename_paths, to_icechunk, open_group, update_attrs,
  }

  module _ (laws : WritesVariables A array_at) where
    write_band-Keeps :
        (row : Row F) (arrays : GranuleArrays A) (band : String) (levels : Levels A) (s : Store)
        → Keeps A array_at s (write_band A row arrays band levels s).1
    unfolding write_band
    write_band-Keeps row arrays band levels s path h = elim (Result-cases (href_of A row band)) [
      | inr (e, failed) ↦ ground arith
      | inl (href, listed) ↦ elim (Result-cases (asset_result (to_vcc_url href))) [
        | inr (e, failed) ↦ ground arith
        | inl (reference, made) ↦
            let s₁ = (write_levels A row.id band reference (sort_levels A levels) s).1 in
            let s₂ = (open_group (band_path row.id band) s₁).1 in
            let h₁ =
              write_levels-Keeps A array_at laws row.id band reference (sort_levels A levels) s path
                h in
            let h₂ = laws.group_keeps (band_path row.id band) path s₁ h₁ in
            elim (Result-cases (band_attrs A row arrays band)) [
              | inr (e, failed) ↦ ground arith
              | inl (attrs, built) ↦
                  let h₃ = laws.attrs_keep (band_path row.id band) path attrs s₂ h₂ in ground arith
            ]
      ]
    ]

    write_band-There :
        (row : Row F) (arrays : GranuleArrays A) (band : String) (levels : Levels A) (s : Store)
        → (write_band A row arrays band levels s).0 ≡ ok tt
        → There A array_at row.id band
            (keys_of A array_at (sort_levels A levels))
            (write_band A row arrays band levels s).1
    unfolding write_band
    write_band-There row arrays band levels s done = elim (Result-cases (href_of A row band)) [
      | inr (e, failed) ↦ absurd (ground arith)
      | inl (href, listed) ↦ elim (Result-cases (asset_result (to_vcc_url href))) [
        | inr (e, failed) ↦ absurd (ground arith)
        | inl (reference, made) ↦ elim (Result-cases (band_attrs A row arrays band)) [
          | inr (e, failed) ↦ absurd (ground arith)
          | inl (attrs, built) ↦
              let keys = keys_of A array_at (sort_levels A levels) in
              let path = band_path row.id band in
              let s₁ = (write_levels A row.id band reference (sort_levels A levels) s).1 in
              let s₂ = (open_group path s₁).1 in
              let s₃ = (update_attrs path attrs s₂).1 in
              let last : (write_band A row arrays band levels s).1 ≡ s₃ = ground arith in
              let there =
                write_levels-There A array_at laws row.id band reference (sort_levels A levels) s
                  (ground arith) in
              subst (λ r. There A array_at row.id band keys r) (sym last)
                (There-Keeps A array_at laws row.id band keys s₁ s₃
                  (λ p h. laws.attrs_keep path p attrs s₂ (laws.group_keeps path p s₁ h)) there)
        ]
      ]
    ]

    write_bands-Keeps :
        (row : Row F) (arrays : GranuleArrays A) (datasets : Dict (Levels A)) (s : Store)
        → Keeps A array_at s (write_bands A row arrays datasets s).1
    unfolding write_bands
    write_bands-Keeps row arrays [] s path h = h
    write_bands-Keeps row arrays ((band, levels) ∷ rest) s path h =
        let s' = (write_band A row arrays band levels s).1 in
        let h' = write_band-Keeps row arrays band levels s path h in
        ground (arith, h', write_bands-Keeps row arrays rest s' path h')

    pub write_bands-There :
        (row : Row F) (arrays : GranuleArrays A) (band : String) {levels : Levels A}
        (datasets : Dict (Levels A)) (s : Store)
        → Dict.get band datasets ≡ some levels
        → (write_bands A row arrays datasets s).0 ≡ ok tt
        → There A array_at row.id band
            (keys_of A array_at (sort_levels A levels))
            (write_bands A row arrays datasets s).1
    unfolding write_bands Dict.get
    write_bands-There row arrays band [] s found done = absurd (ground arith)
    write_bands-There row arrays band {levels} ((b, ls) ∷ rest) s found done =
        let s' = (write_band A row arrays b ls s).1 in
        elim (Result-cases (write_band A row arrays b ls s).0) [
          | inr (e, failed) ↦ absurd (ground arith)
          | inl (first, wrote) ↦
              let next : write_bands A row arrays ((b, ls) ∷ rest) s
                  ≡ write_bands A row arrays rest s' =
                ground arith in
              subst
                (λ r. There A array_at row.id band (keys_of A array_at (sort_levels A levels)) r.1)
                (sym next)
                (elim (Bool-cases (b == band)) [
                  | inr differ ↦
                      write_bands-There row arrays band {levels = levels} rest s' (ground arith)
                        (ground arith)
                  | inl same ↦
                      let named : b ≡ band = ground (arith, eq_iff b band) in
                      let these : ls ≡ levels = ground arith in
                      let here =
                        There-Keeps A array_at laws row.id b (keys_of A array_at (sort_levels A ls))
                          s' _ (write_bands-Keeps row arrays rest s')
                          (write_band-There row arrays b ls s (ground arith)) in
                      subst
                        (λ x.
                          There A array_at row.id x (keys_of A array_at (sort_levels A levels))
                            (write_bands A row arrays rest s').1)
                        named
                        (subst
                          (λ l.
                            There A array_at row.id b (keys_of A array_at (sort_levels A l))
                              (write_bands A row arrays rest s').1)
                          these here)
                ])
        ]
