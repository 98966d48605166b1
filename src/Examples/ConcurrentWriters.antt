-- ===== src/Examples/ConcurrentWriters.antt =====
-- examples/concurrent_writers.py: two writers ingest granules at the same time, a delete is
-- replayed, and a tag pins a snapshot. What the script prints it returns, as a report; the listing of
-- the history at the end is left out.
mod Rows
pub mod Calls
pub mod Both
unfoldable pub use Rows.*
use icechest.Base.{ℕ, String, Bool, false, Option, none, some, List, [], ◌∷◌, sort_texts}
use icechest.Base.Dict
use icechest.Base.Dict.{Dict}
use icechest.Base.Exec.{Result, ok, err, Exec, pure, reads, lift, ◌>>=◌, ◌>>◌}
use icechest.Convention.{TableBinding}
use icechest.Errors.{Error, text, external}
use icechest.Platform.{Platform}
use icechest.Repo.{HybridSnapshot, read, table, group, pointers, bindings}
use icechest.Transaction.{
  HybridRepo, Transaction, TransactionExec, create_repo, transaction, on_group, create_table,
  append, delete, commit, within,
}

module _ (P : Platform) (script : Script P) (repo : HybridRepo) where
  open P use {World, Expression, Rows, load_file_io}
  open script use {
    create_array, fill, unpartitioned, unsorted, create_tag, scan, granule_ids, num_rows, element,
  }

  abbrev pub ScriptExec : Type 0 → Type 0
  ScriptExec = Exec World (Error Expression)

  -- `repo.transaction("main", message)`
  unfoldable pub opens : String → ScriptExec (Transaction P)
  opens message = reads (λ w. transaction P repo "main" message none none w)

  -- Some calls on a transaction that the script holds.
  unfoldable pub on :
      {A : Type 0} → TransactionExec P A → Transaction P → ScriptExec (A × Transaction P)
  on calls tx w =
      let (r, s) = calls (tx, w) in elim r [ ok a ↦ (ok (a, s.0), s.1) | err e ↦ (err e, s.1) ]

  -- Array values into a slice, and the row that describes them.
  unfoldable pub ingest : ℕ → ℕ → ℕ → Rows → TransactionExec P (Unit {0})
  ingest from to value rows = on_group P (fill from to value) >> append P "granules" rows

  -- `with repo.transaction("main", message) as tx:`
  with_transaction : String → TransactionExec P (Unit {0}) → ScriptExec (Unit {0})
  unfolding opens on
  with_transaction message body = do tx ← opens message; on (within P body) tx; pure tt

  -- 1. The store is seeded: one array, one table.
  seed : ScriptExec (Unit {0})
  unfolding with_transaction
  seed = with_transaction "seed" (
      on_group P create_array
      >> create_table P "granules" (granules script) none [] unpartitioned unsorted)

  -- 2. Both ingest, one after the other.
  unfoldable pub both_write :
      Transaction P → Transaction P → ScriptExec (Transaction P × Transaction P)
  both_write ben anna = do
    (_, ben₁) ← on (ingest 0 10 1 (row script "G-100" "2026-03-01" "0:10")) ben
    (_, anna₁) ← on (ingest 200 210 2 (row script "G-200" "2026-03-02" "200:210")) anna
    pure (ben₁, anna₁)

  -- 3. and 4. Ben commits first.
  unfoldable pub both_commit : Transaction P → Transaction P → ScriptExec (String × String)
  both_commit ben anna = do
    (ben_snapshot, _) ← on (commit P) ben
    (anna_snapshot, _) ← on (commit P) anna
    pure (ben_snapshot, anna_snapshot)

  -- 2. to 4. Ben and Anna open a transaction on the same tip.
  unfoldable pub both_ingest : ScriptExec (String × String)
  both_ingest = do
    ben ← opens "ben ingests G-100"
    anna ← opens "anna ingests G-200"
    (ben₁, anna₁) ← both_write ben anna
    both_commit ben₁ anna₁

  -- 6. A delete, while somebody ingests something else.
  retract : ScriptExec (Unit {0})
  unfolding opens on ingest with_transaction
  retract = do
    tx ← opens "retract G-100"
    (_, tx₁) ← on (delete P "granules" (text "granule_id == 'G-100'")) tx
    with_transaction "concurrent unrelated ingest"
        (ingest 100 110 5 (row script "G-400" "2026-03-04" "100:110"))
    on (commit P) tx₁
    pure tt

  -- 7. A tag on Anna's snapshot, and an ingest after it.
  tag_and_go_on : String → ScriptExec (Unit {0})
  unfolding ingest with_transaction
  tag_and_go_on snapshot = do
    create_tag "release-1" snapshot
    with_transaction "later ingest" (ingest 300 310 9 (row script "G-300" "2026-03-03" "300:310"))

  -- `repo.read("main")`
  tip : ScriptExec HybridSnapshot
  tip = reads (λ w. read P repo (some "main") none none w)

  -- `snapshot.table("granules").scan().to_arrow()`
  rows_of : HybridSnapshot → ScriptExec Rows
  rows_of snapshot = do
    loaded ← reads (λ w. table P "granules" snapshot w)
    reads (λ w. scan (load_file_io repo.io_properties) loaded.metadata w)

  -- `snapshot.group["reflectance"][n]`
  value_of : ℕ → HybridSnapshot → ScriptExec ℕ
  value_of n snapshot = do root ← reads (λ w. group P snapshot w); lift (element n root)

  -- `snapshot.pointers["granules"]`
  pointer_of : HybridSnapshot → ScriptExec String
  pointer_of snapshot = do
    found ← reads (λ w. pointers P snapshot w)
    lift (elim (Dict.get "granules" found) [
      | none ↦ err (external "'granules'")
      | some location ↦ ok location
    ])

  -- 5. What a reader of the tip sees.
  look : ScriptExec (List String × ℕ × ℕ × String)
  unfolding tip rows_of value_of pointer_of
  look = do
    snapshot ← tip
    rows ← rows_of snapshot
    first ← value_of 0 snapshot
    second ← value_of 200 snapshot
    location ← pointer_of snapshot
    pure (sort_texts (granule_ids rows), first, second, location)

  count_of : HybridSnapshot → ScriptExec (ℕ × ℕ)
  unfolding rows_of value_of
  count_of snapshot = do
    rows ← rows_of snapshot
    value ← value_of 300 snapshot
    pure (num_rows rows, value)

  -- `main`, on a repository that is there.
  pub main : ScriptExec Report
  unfolding seed both_ingest retract tag_and_go_on tip look rows_of count_of
  main = do
    seed
    seeded ← tip
    bound ← reads (λ w. bindings P seeded w)
    (ben_snapshot, anna_snapshot) ← both_ingest
    both ← look
    retract
    left ← tip
    remaining ← rows_of left
    tag_and_go_on anna_snapshot
    pinned ← reads (λ w. read P repo none (some "release-1") none w)
    latest ← tip
    pinned_count ← count_of pinned
    latest_count ← count_of latest
    pure (record {
      bound = bound;
      snapshots = (ben_snapshot, anna_snapshot);
      both = both;
      remaining = sort_texts (granule_ids remaining);
      pinned = pinned_count;
      latest = latest_count;
    })

-- The whole script, from `HybridRepo.create` on.
unfoldable run :
    (P : Platform)
    → Script P
    → (P.World → Result (Error P.Expression) (Unit {0}) × P.World)
    → String
    → P.World
    → Result (Error P.Expression) Report × P.World
unfolding main create_repo
run P script open_or_create warehouse w =
    let (r, w') = create_repo P open_or_create warehouse none w in
    elim r [ err e ↦ (err e, w') | ok repo ↦ main P script repo w' ]
