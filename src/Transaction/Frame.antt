-- ===== src/Transaction/Frame.antt =====
-- What the steps of `commit` leave alone.
use icechest.Base.{
  not, ◌&&◌, is_empty, String, ◌≡◌, refl, inl, inr, Bool, false, Option, none, some, List, [], ◌∷◌,
  map, arith, ◌==◌, contains_text, Bool-cases,
}
use icechest.Base.Dict
use icechest.Base.Dict.{Dict, get-insert}
use icechest.Base.Exec.{Result, ok, err, Result-cases}
use icechest.Catalog.{
  IcechunkCatalog, current_pointers, stage, commit_table, load_table, Table, table_exists,
}
use icechest.Catalog.ReadOnly.{SameBase, create_table-SameBase, commit_table-SameBase}
use icechest.Catalog.Staging.{
  Stages, staged_one, untouched, create_table-Stages, commit_table-Stages,
}
use icechest.Errors.{Error}
use icechest.Intent.{
  TableIntent, create, append_rows, delete_rows, overwrite_rows, intent_name, apply,
  load_and_change, change_table, finish_change, change_loaded, Changes,
}
use icechest.Platform.{Platform}
use icechest.Pointer.{commit_metadata}
use icechest.Transaction.State.{Transaction, on_catalog}
use icechest.Transaction.Commit.{allows_empty, apply_all, prepare, publish, round}

pub SameBase-refl : (c : IcechunkCatalog) → SameBase c c
SameBase-refl c = ground arith

pub SameBase-trans : {a b c : IcechunkCatalog} → SameBase a b → SameBase b c → SameBase a c
SameBase-trans h k = ground arith

module _ (P : Platform) where
  open P use {World, Metadata, Requirement, TableUpdate, Expression, table_name_from}

  -- The name under which an intent's table is staged.
  abbrev pub staged_name : TableIntent P → String
  staged_name intent = table_name_from (intent_name P intent)

  -- One call on the catalog that concerns the table `name` alone.
  pub record Touches (name : String) (c c' : IcechunkCatalog) : Type 0 where
    pub base : SameBase c c'
    pub others : (j : String) → (name == j) ≡ false → Dict.get j c'.staged ≡ Dict.get j c.staged

  Stages-others :
      {A : Type 0} {name : String} {location_of : A → String} {c : IcechunkCatalog}
      (outcome : Result (Error Expression) A × (IcechunkCatalog × World))
      → Stages name location_of c outcome
      → (j : String) → (name == j) ≡ false
      → Dict.get j outcome.1.0.staged ≡ Dict.get j c.staged
  unfolding stage
  Stages-others {name} {location_of} {c} outcome (staged_one a done staged) j ne =
      ground (arith, get-insert j name (location_of a) c.staged)
  Stages-others outcome (untouched e failed same) j ne = ground arith

  commit_table-Touches :
      (table : Table Metadata) (requirements : List Requirement) (updates : List TableUpdate)
      (c : IcechunkCatalog) (w : World)
      → Touches table.name c (commit_table P table requirements updates (c, w)).1.0
  commit_table-Touches table requirements updates c w = record {
    base = commit_table-SameBase P table requirements updates c w;
    others = Stages-others _ (commit_table-Stages P table requirements updates c w);
  }

  load_table-name :
      (name : String) {table : Table Metadata} (c : IcechunkCatalog) (w : World)
      → load_table P name c w ≡ ok table
      → table.name ≡ table_name_from name
  unfolding load_table
  load_table-name name c w h = ground arith

  Touches-refl : (name : String) (c : IcechunkCatalog) → Touches name c c
  Touches-refl name c = record { base = SameBase-refl c; others = λ j ne. refl }

  finish-Touches :
      (table : Table Metadata)
      (outcome : Result (Error Expression) (Option (List Requirement × List TableUpdate)) × World)
      (c : IcechunkCatalog)
      → Touches table.name c (finish_change P table outcome c).1.0
  unfolding finish_change
  finish-Touches table (ok none, w) c = Touches-refl table.name c
  finish-Touches table (ok (some (requirements, updates)), w) c =
      let h = commit_table-Touches table requirements updates c w in
      record { base = ground (arith, h.base); others = λ j ne. ground (arith, h.others j) }
  finish-Touches table (err e, w) c = Touches-refl table.name c

  change_loaded-Touches :
      (name : String) (loaded : Result (Error Expression) (Table Metadata))
      (changes : Metadata → Changes P) (c : IcechunkCatalog) (w : World)
      → ((table : Table Metadata) → loaded ≡ ok table → table.name ≡ name)
      → Touches name c (change_loaded P loaded changes (c, w)).1.0
  unfolding change_loaded change_table
  change_loaded-Touches name (err e) changes c w named = Touches-refl name c
  change_loaded-Touches name (ok table) changes c w named =
      rw (← named table refl) (finish-Touches table (changes table.metadata w) c)

  load_and_change-Touches :
      (name : String) (changes : Metadata → Changes P) (c : IcechunkCatalog) (w : World)
      → Touches (table_name_from name) c (load_and_change P name changes (c, w)).1.0
  unfolding load_and_change
  load_and_change-Touches name changes c w =
      change_loaded-Touches (table_name_from name) (load_table P name c w) changes c w
        (λ table loaded. load_table-name name c w loaded)

  -- An intent touches the entry of its own table alone.
  pub apply-Touches :
      (intent : TableIntent P) (c : IcechunkCatalog) (w : World)
      → Touches (staged_name intent) c (apply P intent (c, w)).1.0
  unfolding apply
  apply-Touches (create name schema location properties spec order) c w =
      elim (Bool-cases (table_exists P name c)) [
        | inl there ↦ rw there (Touches-refl (table_name_from name) c)
        | inr absent ↦ rw absent (record {
          base = ground (
            arith,
            create_table-SameBase P name schema (some location) spec order properties c w,
          );
          others = λ j ne. ground (
            arith,
            Stages-others _
                (create_table-Stages P name schema (some location) spec order properties c w) j,
          );
        })
      ]
  apply-Touches (append_rows name rows) c w = load_and_change-Touches name _ c w
  apply-Touches (delete_rows name predicate) c w = load_and_change-Touches name _ c w
  apply-Touches (overwrite_rows name rows predicate) c w = load_and_change-Touches name _ c w

  -- The intents together leave every entry alone that none of them is about.
  pub record KeepsOthers (intents : List (TableIntent P)) (c c' : IcechunkCatalog) : Type 0 where
    pub base : SameBase c c'
    pub others :
        (j : String)
        → contains_text (map staged_name intents) j ≡ false
        → Dict.get j c'.staged ≡ Dict.get j c.staged

  pub apply_all-KeepsOthers :
      (intents : List (TableIntent P)) (c : IcechunkCatalog) (w : World)
      → KeepsOthers intents c (apply_all P intents (c, w)).1.0
  unfolding apply_all
  apply_all-KeepsOthers [] c w = record { base = SameBase-refl c; others = λ j ne. refl }
  apply_all-KeepsOthers (intent ∷ rest) c w =
      let s = apply P intent (c, w) in
      let h = apply-Touches intent c w in
      let k = apply_all-KeepsOthers rest s.1.0 s.1.1 in
      record {
        base = ground (arith, h.base, k.base);
        others = λ j ne. ground (arith, h.others j, k.others j);
      }

module _ (P : Platform) where
  open P use {World, Expression, has_uncommitted_changes, session_commit, session_rebase}

  -- `tx'` differs from `tx` in its session and its catalog at most.
  pub record SamePlan (tx tx' : Transaction P) : Type 0 where
    pub repo : tx'.repo ≡ tx.repo
    pub branch : tx'.branch ≡ tx.branch
    pub message : tx'.message ≡ tx.message
    pub max_retries : tx'.max_retries ≡ tx.max_retries
    pub intents : tx'.intents ≡ tx.intents
    pub base_snapshots : tx'.base_snapshots ≡ tx.base_snapshots
    pub unmanaged_staged : tx'.unmanaged_staged ≡ tx.unmanaged_staged

  pub SamePlan-refl : (tx : Transaction P) → SamePlan tx tx
  SamePlan-refl tx = ground arith

  pub SamePlan-trans : {a b c : Transaction P} → SamePlan a b → SamePlan b c → SamePlan a c
  SamePlan-trans h k = ground arith

  -- A round's preparation runs the intents on the catalog, and does nothing else, however it ends.
  pub prepare_state :
      (first : Bool) (tx : Transaction P) (w : World)
      → let s = apply_all P tx.intents (tx.catalog, w) in
        (prepare P first (tx, w)).1 ≡ (record tx { catalog = s.1.0 }, s.1.1)
  unfolding prepare on_catalog
  prepare_state first tx w = ground arith

  -- What a preparation that goes through hands to the commit.
  pub prepare_ok :
      (first : Bool) {pointers : Dict String} {allow_empty : Bool} (tx : Transaction P) (w : World)
      → (prepare P first (tx, w)).0 ≡ ok (pointers, allow_empty)
      → let c' = (apply_all P tx.intents (tx.catalog, w)).1.0 in
        (pointers ≡ current_pointers c')
        × (allow_empty ≡ not (has_uncommitted_changes tx.session))
        × ((apply_all P tx.intents (tx.catalog, w)).0 ≡ ok tt)
        × (((is_empty c'.staged && not (has_uncommitted_changes tx.session)) && first) ≡ false)
  unfolding prepare on_catalog allows_empty
  prepare_ok first tx w h = ground arith

  -- What a round's attempt says of the state behind it.
  pub round_sent :
      (first : Bool) (outcome : Result (Error Expression) String) (tx : Transaction P) (w : World)
      → (round P first (tx, w)).0 ≡ ok outcome
      → let s = (apply_all P tx.intents (tx.catalog, w)).1 in
        let sent =
          session_commit tx.message
            (commit_metadata (current_pointers s.0))
            (not (has_uncommitted_changes tx.session))
            tx.session
            s.1 in
        (sent.0 ≡ outcome)
        × ((round P first (tx, w)).1 ≡ (record tx { catalog = s.0; session = sent.1 }, sent.2))
  unfolding round publish
  round_sent first outcome tx w h = elim (Result-cases (prepare P first (tx, w)).0) [
    | inl ((pointers, allow_empty), ready) ↦ ground (
      arith,
      prepare_state first tx w,
      prepare_ok first {pointers = pointers} {allow_empty = allow_empty} tx w,
    )
    | inr (e, raised) ↦ ground arith
  ]

  -- However a round ends, it changes the catalog and the session at most.
  pub round_state :
      (first : Bool) (tx : Transaction P) (w : World) → SamePlan tx (round P first (tx, w)).1.0
  unfolding round publish
  round_state first tx w = ground (arith, prepare_state first tx w)
