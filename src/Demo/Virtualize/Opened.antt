-- ===== src/Demo/Virtualize/Opened.antt =====
-- The levels of the bands that `virtual_granule` opened.
use icechest.Base.{
  String, ◌≡◌, false, none, some, List, [], ◌∷◌, arith, is_empty, length, ◌==◌, inl, inr,
  Bool-cases,
}
use icechest.Base.Dict
use icechest.Base.Dict.{Dict, get-insert}
use icechest.Base.Exec.{ok, Result-cases}
use icechest.Demo.Assets.{asset_urls}
use icechest.Demo.Conventions.{Floats}
use icechest.Demo.Virtualize.{
  Arrays, Row, Levels, GranuleArrays, open_band, open_bands, per_level, shape_of, virtual_granule,
  asset_result, library_result,
}

module _ {F : Floats} (A : Arrays F) where
  -- At `band`: the recorded count is that of the levels, of which there is one at least.
  pub record Counted (band : String) (levels : Levels A) (arrays : GranuleArrays A) : Type 0 where
    pub count : Dict.get band arrays.levels ≡ some (length levels)
    pub some_level : is_empty levels ≡ false

  abbrev Counts : GranuleArrays A → Type 0
  Counts arrays =
      (band : String) (levels : Levels A)
      → Dict.get band arrays.datasets ≡ some levels
      → Counted band levels arrays

  open_band-Counts :
      (b url : String) (arrays arrays' : GranuleArrays A)
      → open_band A b url arrays ≡ ok arrays'
      → Counts arrays
      → Counts arrays'
  unfolding open_band
  open_band-Counts b url arrays arrays' done counts band levels found =
      elim (Result-cases (library_result (A.open_pyramid url))) [
        | inr (e, failed) ↦ absurd (ground arith)
        | inl (children, opened) ↦ elim (Result-cases (per_level A children [])) [
          | inr (e, failed) ↦ absurd (ground arith)
          | inl (read, numbered) ↦ elim (Result-cases (shape_of A arrays.shape read)) [
            | inr (e, failed) ↦ absurd (ground arith)
            | inl (shape, known) ↦ elim (Bool-cases (b == band)) [
              | inl same ↦ record {
                count = ground (
                  arith,
                  get-insert band b read arrays.datasets,
                  get-insert band b (length read) arrays.levels,
                );
                some_level = ground (arith, get-insert band b read arrays.datasets);
              }
              | inr differ ↦
                  let was =
                    counts band levels (ground (arith, get-insert band b read arrays.datasets)) in
                  record {
                    count =
                        ground (arith, was.count, get-insert band b (length read) arrays.levels);
                    some_level = was.some_level;
                  }
            ]
          ]
        ]
      ]

  open_bands-Counts :
      (urls : Dict String) (arrays arrays' : GranuleArrays A)
      → open_bands A urls arrays ≡ ok arrays'
      → Counts arrays
      → Counts arrays'
  unfolding open_bands
  open_bands-Counts [] arrays arrays' done counts band levels found =
      let was = counts band levels (ground arith) in
      record { count = ground (arith, was.count); some_level = was.some_level }
  open_bands-Counts ((b, url) ∷ urls) arrays arrays' done counts band levels found =
      elim (Result-cases (open_band A b url arrays)) [
        | inr (e, failed) ↦ absurd (ground arith)
        | inl (next, opened) ↦
            open_bands-Counts urls next arrays' (ground arith)
              (open_band-Counts b url arrays next opened counts) band levels found
      ]

  pub virtual_granule-Counted :
      (row : Row F) (bands : List String) (access band : String) (levels : Levels A)
      (arrays : GranuleArrays A)
      → virtual_granule A row bands access ≡ ok arrays
      → Dict.get band arrays.datasets ≡ some levels
      → Counted band levels arrays
  unfolding virtual_granule Dict.get
  virtual_granule-Counted row bands access band levels arrays done found =
      elim (Result-cases (asset_result (asset_urls row.assets bands access))) [
        | inr (e, failed) ↦ absurd (ground arith)
        | inl (urls, listed) ↦
            let none_yet : GranuleArrays A = record { datasets = []; levels = []; shape = none } in
            elim (Result-cases (open_bands A urls none_yet)) [
              | inr (e, failed) ↦ absurd (ground arith)
              | inl (read, opened) ↦
                  open_bands-Counts urls none_yet arrays (ground arith) (λ b ls h. cc) band levels
                    found
            ]
      ]
