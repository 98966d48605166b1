-- ===== src/Transaction/Rows/Growing.antt =====
-- What a list of intents that only appends to a table makes of the version that it is at.
use icechest.Base.{
  ℕ, ◌+◌, String, ◌≡◌, true, false, ◌&&◌, List, [], ◌∷◌, ◌==◌, arith, inl, inr, Bool-cases, eq_iff,
}
use icechest.Base.Exec.{ok}
use icechest.Catalog.{IcechunkCatalog, current_pointers}
use icechest.Intent.{TableIntent, create, append_rows, delete_rows, overwrite_rows, apply}
use icechest.Platform.{Platform}
use icechest.Platform.Laws.{ReadsBack, KeepsFiles, IsCount}
use icechest.Transaction.Commit.{apply_all}
use icechest.Transaction.Frame.{staged_name, apply-Touches}
use icechest.Transaction.Quiet.{apply-Holds}
use icechest.Transaction.Rows.{
  IsAt, only_appends, given_to, apply_other, apply-appends, IsAt-of_load, load-of_IsAt,
}

module _ (P : Platform) where
  open P use {World, Metadata, Rows, table_name_from, load_file_io, read_metadata}

  module _ (stored : ReadsBack P) (files : KeepsFiles P) {count : Metadata → ℕ} {given : Rows → ℕ}
      (counts : IsCount P count given) where
    -- What intents that only append to `j` make of the version that it is at.
    unfoldable pub Grown : String → ℕ → Metadata → IcechunkCatalog → World → Type 0
    Grown j more before c w =
        (after : Metadata) × IsAt P (load_file_io c.properties) j (current_pointers c) after w
        × (count after ≡ count before + more)

    -- An intent about another table leaves the version of `j`.
    other-Grown :
        (intent : TableIntent P) (j : String) {before : Metadata} (c : IcechunkCatalog) (w : World)
        → (staged_name P intent == j) ≡ false
        → IsAt P (load_file_io c.properties) j (current_pointers c) before w
        → let s = (apply P intent (c, w)).1 in Grown j 0 before s.0 s.1
    unfolding Grown
    other-Grown intent j {before} c w ne here =
        let s = (apply P intent (c, w)).1 in
        let io = load_file_io c.properties in
        let same : s.0.properties ≡ c.properties = (apply-Touches P intent c w).base.properties in
        (
          before,
          record {
            location = here.location;
            there = rw (apply_other P intent j c w ne) (here.there);
            read =
                rw same
                  (apply-Holds P (files.quiet io here.location before) intent c w (here.read));
          },
          omega arith,
        )

    append-Grown :
        (name j : String) (rows : Rows) {before : Metadata} (c : IcechunkCatalog) (w : World)
        → table_name_from name ≡ j
        → IsAt P (load_file_io c.properties) j (current_pointers c) before w
        → (apply P (append_rows name rows) (c, w)).0 ≡ ok tt
        → let s = (apply P (append_rows name rows) (c, w)).1 in Grown j (given rows) before s.0 s.1
    unfolding Grown
    append-Grown name j rows {before} c w named here done =
        let s = (apply P (append_rows name rows) (c, w)).1 in
        let (loaded, after, found, loads, counted) =
          apply-appends P stored files counts name rows c w done in
        let (table, found', same) = load-of_IsAt P name {metadata = before} c w (rw named here) in
        (
          after.metadata,
          rw (← named) (IsAt-of_load P name s.0 s.1 loads),
          ground (arith, counted, found, found', same),
        )

    apply-Grown :
        (intent : TableIntent P) (j : String) {before : Metadata} (c : IcechunkCatalog) (w : World)
        → only_appends P j (intent ∷ []) ≡ true
        → IsAt P (load_file_io c.properties) j (current_pointers c) before w
        → (apply P intent (c, w)).0 ≡ ok tt
        → let s = (apply P intent (c, w)).1 in
          Grown j (given_to P given j (intent ∷ [])) before s.0 s.1
    unfolding Grown
    apply-Grown (append_rows name rows) j {before} c w only here done =
        elim (Bool-cases (table_name_from name == j)) [
          | inl same ↦
              let (after, there, counted) =
                append-Grown name j rows {before = before} c w
                  (ground (arith, eq_iff (table_name_from name) j)) here done in
              (after, there, ground (arith, counted))
          | inr ne ↦
              let (after, there, counted) =
                other-Grown (append_rows name rows) j {before = before} c w ne here in
              (after, there, ground (arith, counted))
        ]
    apply-Grown (create name schema location properties spec order) j c w only here done =
        other-Grown (create name schema location properties spec order) j c w (ground arith) here
    apply-Grown (delete_rows name predicate) j c w only here done =
        other-Grown (delete_rows name predicate) j c w (ground arith) here
    apply-Grown (overwrite_rows name rows predicate) j c w only here done =
        other-Grown (overwrite_rows name rows predicate) j c w (ground arith) here

    pub only_appends_cons :
        (intent : TableIntent P) (j : String) (rest : List (TableIntent P))
        → (only_appends P j (intent ∷ rest)
            ≡ (only_appends P j (intent ∷ []) && only_appends P j rest))
          × (given_to P given j (intent ∷ rest)
              ≡ given_to P given j (intent ∷ []) + given_to P given j rest)
    only_appends_cons (append_rows name rows) j rest = ground arith
    only_appends_cons (create name schema location properties spec order) j rest = ground arith
    only_appends_cons (delete_rows name predicate) j rest = ground arith
    only_appends_cons (overwrite_rows name rows predicate) j rest = ground arith

    pub apply_all-runs :
        (intent : TableIntent P) (rest : List (TableIntent P)) (c : IcechunkCatalog) (w : World)
        → (apply_all P (intent ∷ rest) (c, w)).0 ≡ ok tt
        → let s = (apply P intent (c, w)).1 in
          ((apply P intent (c, w)).0 ≡ ok tt)
          × ((apply_all P rest s).0 ≡ ok tt)
          × (apply_all P (intent ∷ rest) (c, w) ≡ apply_all P rest s)
    unfolding apply_all
    apply_all-runs intent rest c w done = ground arith

    -- Intents that all go through, where those about `j` append.
    pub apply_all-Grown :
        (intents : List (TableIntent P)) (j : String) {before : Metadata} (c : IcechunkCatalog)
        (w : World)
        → only_appends P j intents ≡ true
        → IsAt P (load_file_io c.properties) j (current_pointers c) before w
        → (apply_all P intents (c, w)).0 ≡ ok tt
        → let s = (apply_all P intents (c, w)).1 in
          Grown j (given_to P given j intents) before s.0 s.1
    unfolding Grown
    apply_all-Grown [] j {before} c w only here done =
        (before, unfold apply_all in here, unfold apply_all in omega arith)
    apply_all-Grown (intent ∷ rest) j {before} c w only here done =
        let s = (apply P intent (c, w)).1 in
        let (first, others, same) = apply_all-runs intent rest c w done in
        let (only_cons, given_cons) = only_appends_cons intent j rest in
        let (between, there, counted) =
          apply-Grown intent j {before = before} c w (ground (arith, only_cons)) here first in
        let (after, there', counted') =
          apply_all-Grown rest j {before = between} s.0 s.1 (ground (arith, only_cons)) there
            others in
        (after, rw same there', ground (arith, counted, counted', given_cons))
