-- ===== src/Demo/Virtualize/Declared.antt =====
-- The arrays that the attributes of a band declare, and those that the writer leaves.
use mathlib.Core.Path.{subst}
use text.Mathlib.TextLemmas.{append_assoc}
use icechest.Base.{
  ℕ, String, ◌<>◌, ◌≡◌, ap, sym, refl, Bool, true, List, [], ◌∷◌, arith, is_empty, decimal, All,
  if◌then◌else◌, inl, inr,
}
use icechest.Base.Exec.{ok, err, Result-cases}
use icechest.Demo.Conventions.{Floats, GranuleAttrs, level_path, level_asset_prefix}
use icechest.Demo.Virtualize.{
  Arrays, not_one_variable, Levels, level_group, band_path, write_level, write_levels, leveled,
}

-- The array `band` of a level's group is what the layout calls it, from the band's group.
level_group-band :
    (id band : String) (n : ℕ)
    → level_group id band n <> ("/" <> band)
      ≡ band_path id band <> ("/" <> level_path level_asset_prefix band n)
unfolding level_group band_path level_path
level_group-band id band n = simp append_assoc (
    ap (λ rest. "/" <> (id <> ("/" <> (band <> ("/" <> rest)))))
      (sym (append_assoc "multiscales" "/" (decimal n <> ("/" <> band)))))

module _ {F : Floats} (A : Arrays F) (array_at : String → A.Store → Bool) where
  open A use {
    Dataset, Store, data_vars, rename, rename_paths, to_icechunk, open_group, update_attrs,
  }

  -- What is documented of arrays: a dataset's variables are written into its group, writes with mode
  -- `"a"` keep the arrays that are there, and a renamed dataset has the new name for the old one.
  pub record WritesVariables : Type 0 where
    pub written :
        (group variable : String) (d : Dataset) (s : Store)
        → data_vars d ≡ variable ∷ []
        → (to_icechunk group d s).0 ≡ ok tt
        → array_at (group <> ("/" <> variable)) (to_icechunk group d s).1 ≡ true
    pub level_keeps :
        (group path : String) (d : Dataset) (s : Store)
        → array_at path s ≡ true
        → array_at path (to_icechunk group d s).1 ≡ true
    pub group_keeps :
        (group path : String) (s : Store)
        → array_at path s ≡ true
        → array_at path (open_group group s).1 ≡ true
    pub attrs_keep :
        (group path : String) (attrs : GranuleAttrs F) (s : Store)
        → array_at path s ≡ true
        → array_at path (update_attrs group attrs s).1 ≡ true
    pub renamed :
        (old new reference : String) (d : Dataset)
        → data_vars d ≡ old ∷ []
        → data_vars (rename_paths reference (rename old new d)) ≡ new ∷ []

  -- The arrays of these levels are there.
  abbrev pub There : String → String → List ℕ → Store → Type 0
  There id band levels s =
      All
        (λ n.
          array_at (band_path id band <> ("/" <> level_path level_asset_prefix band n)) s ≡ true)
        levels

  unfoldable pub keys_of : Levels A → List ℕ
  keys_of [] = []
  keys_of ((n, d) ∷ levels) = n ∷ keys_of levels

  -- No array of `s` is missing in `s'`.
  abbrev pub Keeps : Store → Store → Type 0
  Keeps s s' = (path : String) → array_at path s ≡ true → array_at path s' ≡ true

  module _ (laws : WritesVariables) where
    leveled-variable :
        (band reference : String) (d renamed : Dataset)
        → leveled A band reference d ≡ ok renamed
        → data_vars renamed ≡ band ∷ []
    unfolding leveled
    leveled-variable band reference d renamed done = go (data_vars d) refl done
      where
        go :
            (variables : List String)
            → data_vars d ≡ variables
            → (elim variables [
              | [] ↦ err (not_one_variable band [])
              | variable ∷ others ↦
                  if is_empty others
                  then ok (rename_paths reference (rename variable band d))
                  else err (not_one_variable band (variable ∷ others))
            ])
              ≡ ok renamed
            → data_vars renamed ≡ band ∷ []
        go [] are h = cc
        go (variable ∷ []) are h = ground (arith, laws.renamed variable band reference d are)
        go (variable ∷ other ∷ others) are h = cc

    pub There-Keeps :
        (id band : String) (levels : List ℕ) (s s' : Store)
        → Keeps s s'
        → There id band levels s
        → There id band levels s'
    There-Keeps id band [] s s' keeps h = tt
    There-Keeps id band (n ∷ levels) s s' keeps h =
        (keeps _ h.0, There-Keeps id band levels s s' keeps h.1)

    write_level-Keeps :
        (id band reference : String) (level : ℕ) (d : Dataset) (s : Store)
        → Keeps s (write_level A id band reference level d s).1
    unfolding write_level
    write_level-Keeps id band reference level d s path h =
        elim (Result-cases (leveled A band reference d)) [
          | inr (e, failed) ↦ ground arith
          | inl (renamed, done) ↦
              ground (arith, laws.level_keeps (level_group id band level) path renamed s h)
        ]

    pub write_levels-Keeps :
        (id band reference : String) (levels : Levels A) (s : Store)
        → Keeps s (write_levels A id band reference levels s).1
    unfolding write_levels
    write_levels-Keeps id band reference [] s path h = h
    write_levels-Keeps id band reference ((level, d) ∷ levels) s path h =
        let s' = (write_level A id band reference level d s).1 in
        let h' = write_level-Keeps id band reference level d s path h in
        ground (arith, h', write_levels-Keeps id band reference levels s' path h')

    write_level-There :
        (id band reference : String) (level : ℕ) (d : Dataset) (s : Store)
        → (write_level A id band reference level d s).0 ≡ ok tt
        → There id band (level ∷ []) (write_level A id band reference level d s).1
    unfolding write_level
    write_level-There id band reference level d s done =
        elim (Result-cases (leveled A band reference d)) [
          | inr (e, failed) ↦ absurd (ground arith)
          | inl (renamed, made) ↦
              let group = level_group id band level in
              let at : array_at (group <> ("/" <> band)) (to_icechunk group renamed s).1 ≡ true =
                laws.written group band renamed s (leveled-variable band reference d renamed made)
                  (ground arith) in
              (
                ground (
                  arith,
                  ap (λ p. array_at p (to_icechunk group renamed s).1)
                      (level_group-band id band level),
                ),
                tt,
              )
        ]

    pub write_levels-There :
        (id band reference : String) (levels : Levels A) (s : Store)
        → (write_levels A id band reference levels s).0 ≡ ok tt
        → There id band (keys_of levels) (write_levels A id band reference levels s).1
    unfolding write_levels keys_of
    write_levels-There id band reference [] s done = tt
    write_levels-There id band reference ((level, d) ∷ levels) s done =
        let s' = (write_level A id band reference level d s).1 in
        elim (Result-cases (write_level A id band reference level d s).0) [
          | inr (e, failed) ↦ absurd (ground arith)
          | inl (first, wrote) ↦
              let next : (write_levels A id band reference ((level, d) ∷ levels) s)
                  ≡ write_levels A id band reference levels s' =
                ground arith in
              let here = write_level-There id band reference level d s (ground arith) in
              subst (λ r. There id band (level ∷ keys_of levels) r.1) (sym next)
                (
                  write_levels-Keeps id band reference levels s' _ here.0,
                  write_levels-There id band reference levels s' (ground arith),
                )
        ]
