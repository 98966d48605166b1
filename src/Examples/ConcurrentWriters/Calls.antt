-- ===== src/Examples/ConcurrentWriters/Calls.antt =====
-- What each call of the two writers does, as steps of the writers of a repository.
use icechest.Base.{
  refl, ℕ, String, ◌≡◌, sym, ap, ◌∙◌, true, none, List, [], ◌∷◌, ◌++◌, arith, inl, inr,
}
use icechest.Base.Dict
use icechest.Base.Exec.{Result, ok, pure, ◌>>=◌, bind-ok, Result-cases}
use icechest.Examples.ConcurrentWriters.{Script, row, opens, on, ingest, both_write, both_commit}
use icechest.Errors.{Error}
use icechest.Intent.{TableIntent, append_rows}
use icechest.Platform.{Platform}
use icechest.Platform.Laws.{KeepsPlace}
use icechest.Transaction.{
  HybridRepo, Transaction, begin, transaction, default_max_retries, catalog_for, on_group, append,
  commit,
}
use icechest.Transaction.Window.{appending, perform}
use icechest.Transaction.Writers.Noted.{harmless}
use icechest.Transaction.Writers.{
  working, Writer, Writers, begins, stages, writes, Reach, here, next,
}
use icechest.Transaction.Writers.Runs.{RanTo, commit-RanTo}

module _ (P : Platform) where
  open P use {World}

  abbrev pub State : List (Writer P) → World → List (TableIntent P) → Writers P
  State pool w landed = record { pool = pool; world = w; landed = landed }

  abbrev pub ready : Transaction P → Writer P
  ready tx = record { stage = working true; tx = tx }

module _ (P : Platform) (script : Script P) (repo : HybridRepo) where
  open P use {
    World, Expression, Metadata, Session, Rows, open_group, session_branch, session_snapshot_id,
    table_name_from,
  }
  open script use {fill}

  -- Zarr: filling a slice, too, leaves a session on its branch and on its snapshot.
  pub record WritesInPlace : Type 0 where
    pub place : KeepsPlace P
    pub at_fill :
        (from to value : ℕ) (session : Session) {filled : Session}
        → fill from to value session ≡ ok filled
        → (session_branch filled ≡ session_branch session)
          × (session_snapshot_id filled ≡ session_snapshot_id session)

  unfoldable pub Reaches : Writers P → Writers P → Type 0
  Reaches s t = Reach P (harmless P "granules") repo "main" s t

  -- A transaction that has begun, with nothing in it.
  opened :
      (message : String) (w w' : World) {tx : Transaction P}
      → opens P script repo message w ≡ (ok tx, w')
      → (w' ≡ w)
        × (begin P repo "main" message default_max_retries none w ≡ ok tx)
        × (tx.intents ≡ [])
        × (tx.unmanaged_staged ≡ Dict.keys tx.catalog.staged)
  unfolding opens transaction begin catalog_for Dict.keys
  opened message w w' h = ground arith

  -- What an ingest does to a transaction.
  ingested :
      (in_place : WritesInPlace) (from to value : ℕ) (rows : Rows) (tx : Transaction P)
      (w w' : World) {tx' : Transaction P}
      → on P script repo (ingest P script repo from to value rows) tx w ≡ (ok (tt, tx'), w')
      → (w' ≡ w)
        × (tx'.intents ≡ tx.intents ++ append_rows "granules" rows ∷ [])
        × (tx' ≡ (append P "granules" rows (record tx { session = tx'.session }, w)).1.0)
        × (session_branch tx'.session ≡ session_branch tx.session)
        × (session_snapshot_id tx'.session ≡ session_snapshot_id tx.session)
        × (tx'.unmanaged_staged ≡ tx.unmanaged_staged)
        × (tx'.catalog ≡ tx.catalog)
  unfolding on ingest on_group append
  ingested in_place from to value rows tx w w' h = elim (Result-cases (open_group tx.session)) [
    | inl (o, at_o) ↦ elim (Result-cases (fill from to value o)) [
      | inl (f, at_f) ↦
          ground
            (arith, in_place.place.at_open tx.session at_o, in_place.at_fill from to value o at_f)
      | inr (e, failed) ↦ ground arith
    ]
    | inr (e, failed) ↦ ground arith
  ]

  pub ingest-Reaches :
      (in_place : WritesInPlace) (from to value : ℕ) (rows : Rows) (before after : List (Writer P))
      (landed : List (TableIntent P)) (tx : Transaction P) (w w' : World) {tx' : Transaction P}
      → on P script repo (ingest P script repo from to value rows) tx w ≡ (ok (tt, tx'), w')
      → Reaches
          (State P (before ++ ready P tx ∷ after) w landed)
          (State P (before ++ ready P tx' ∷ after) w' landed)
  unfolding Reaches perform append
  ingest-Reaches in_place from to value rows before after landed tx w w' {tx'} h =
      let (still, _, same, same_branch, same_base, _, _) =
        ingested in_place from to value rows tx w w' h in
      let wrote = record tx { session = tx'.session } in
      let steps : Reach P (harmless P "granules") repo "main"
          (State P (before ++ ready P tx ∷ after) w landed)
          (State P (before ++ ready P (append P "granules" rows (wrote, w)).1.0 ∷ after) w landed) =
        next (next here (writes before after tx tx'.session w landed same_branch same_base))
          (stages before after wrote w landed (appending "granules" rows) refl) in
      rw (still, same) steps

  pub commit-Reaches :
      (before after : List (Writer P)) (landed : List (TableIntent P)) (tx : Transaction P)
      (w w' : World) {id : String} {tx' : Transaction P}
      → tx.unmanaged_staged ≡ Dict.keys tx.catalog.staged
      → on P script repo (commit P) tx w ≡ (ok (id, tx'), w')
      → (writer : Writer P) × Reaches
          (State P (before ++ ready P tx ∷ after) w landed)
          (State P (before ++ writer ∷ after) w' (landed ++ tx.intents))
  unfolding Reaches on RanTo
  commit-Reaches before after landed tx w w' {id} managed h =
      let (stage, tx'', runs) =
        commit-RanTo P (harmless P "granules") repo "main" before after landed tx w managed in
      let returned : (commit P (tx, w)).0 ≡ ok id = ground arith in
      let same_world : (commit P (tx, w)).1.1 ≡ w' = ground arith in
      (record { stage = stage; tx = tx'' }, rw (returned, same_world) at runs)

  -- From nobody to two writers that have begun.
  pub begin-Reaches :
      (w w₁ w₂ : World) (ben anna : Transaction P)
      → opens P script repo "ben ingests G-100" w ≡ (ok ben, w₁)
      → opens P script repo "anna ingests G-200" w₁ ≡ (ok anna, w₂)
      → Reaches (State P [] w []) (State P (ready P anna ∷ ready P ben ∷ []) w₂ [])
  unfolding Reaches
  begin-Reaches w w₁ w₂ ben anna opens_ben opens_anna =
      let (still₁, begun_ben, _, _) = opened "ben ingests G-100" w w₁ opens_ben in
      let (still₂, begun_anna, _, _) = opened "anna ingests G-200" w₁ w₂ opens_anna in
      let first : Reach P (harmless P "granules") repo "main" (State P [] w [])
          (State P (ready P ben ∷ []) w₁ []) =
        rw still₁
          (next here (begins [] w [] "ben ingests G-100" default_max_retries ben begun_ben)) in
      rw still₂ (
        next first (
          begins (ready P ben ∷ []) w₁ [] "anna ingests G-200" default_max_retries anna begun_anna))

  module _ (in_place : WritesInPlace) where
    pub ready-managed :
        (message : String) (from to value : ℕ) (rows : Rows) (w w₁ w₂ w₃ : World)
        {tx tx' : Transaction P}
        → opens P script repo message w ≡ (ok tx, w₁)
        → on P script repo (ingest P script repo from to value rows) tx w₂ ≡ (ok (tt, tx'), w₃)
        → (tx'.unmanaged_staged ≡ Dict.keys tx'.catalog.staged)
          × (tx'.intents ≡ append_rows "granules" rows ∷ [])
    ready-managed message from to value rows w w₁ w₂ w₃ {tx} {tx'} opens_it ingests =
        let (_, _, none_yet, managed) = opened message w w₁ opens_it in
        let (_, intents, _, _, _, unmanaged, catalog) =
          ingested in_place from to value rows tx w₂ w₃ ingests in
        (unmanaged ∙ managed ∙ ap (λ c. Dict.keys c.staged) (sym catalog), rw (none_yet) at intents)

  -- The six calls of the two writers.
  record BothRan (w w' : World) (ids : String × String) : Type 0 where
    ben : Transaction P
    anna : Transaction P
    ben₁ : Transaction P
    anna₁ : Transaction P
    ben₂ : Transaction P
    anna₂ : Transaction P
    w₁ : World
    w₂ : World
    w₃ : World
    w₄ : World
    w₅ : World
    opens_ben : opens P script repo "ben ingests G-100" w ≡ (ok ben, w₁)
    opens_anna : opens P script repo "anna ingests G-200" w₁ ≡ (ok anna, w₂)
    ingests_ben :
        on P script repo
          (ingest P script repo 0 10 1 (row script "G-100" "2026-03-01" "0:10"))
          ben
          w₂
        ≡ (ok (tt, ben₁), w₃)
    ingests_anna :
        on P script repo
          (ingest P script repo 200 210 2 (row script "G-200" "2026-03-02" "200:210"))
          anna
          w₃
        ≡ (ok (tt, anna₁), w₄)
    commits_ben : on P script repo (commit P) ben₁ w₄ ≡ (ok (ids.0, ben₂), w₅)
    commits_anna : on P script repo (commit P) anna₁ w₅ ≡ (ok (ids.1, anna₂), w')

  -- Two calls in a row that return, each on a transaction of its own.
  both-ran :
      {A B C : Type 0} (m : World → Result (Error Expression) A × World)
      (k : A → World → Result (Error Expression) B × World) (f : A → B → C) (w w' : World) {c : C}
      → (m >>= λ a. k a >>= λ b. pure (f a b)) w ≡ (ok c, w')
      → (a : A) × (b : B) × (w₁ : World) × (m w ≡ (ok a, w₁)) × (k a w₁ ≡ (ok b, w')) × (c ≡ f a b)
  both-ran m k f w w' h =
      let (a, w₁, first, rest) = bind-ok m (λ a. k a >>= λ b. pure (f a b)) w h in
      let (b, w₂, second, last) = bind-ok (k a) (λ b. pure (f a b)) w₁ rest in
      (a, b, w₁, first, ground (arith, second, last), ground (arith, last))

  pub both_write-ran :
      (ben anna ben₁ anna₁ : Transaction P) (w w' : World)
      → both_write P script repo ben anna w ≡ (ok (ben₁, anna₁), w')
      → (w₁ : World) × (on P script repo
            (ingest P script repo 0 10 1 (row script "G-100" "2026-03-01" "0:10"))
            ben
            w
          ≡ (ok (tt, ben₁), w₁))
        × (on P script repo
              (ingest P script repo 200 210 2 (row script "G-200" "2026-03-02" "200:210"))
              anna
              w₁
            ≡ (ok (tt, anna₁), w'))
  unfolding both_write
  both_write-ran ben anna ben₁ anna₁ w w' h =
      let ((_, b), (_, a), w₁, first, second, same) =
        both-ran
          (on P script repo (ingest P script repo 0 10 1 (row script "G-100" "2026-03-01" "0:10"))
            ben)
          (λ _.
            on P script repo
              (ingest P script repo 200 210 2 (row script "G-200" "2026-03-02" "200:210")) anna)
          (λ x y. (x.1, y.1)) w w' h in
      (w₁, ground (arith, first, same), ground (arith, second, same))

  pub both_commit-ran :
      (ben anna : Transaction P) (w w' : World) (ids : String × String)
      → both_commit P script repo ben anna w ≡ (ok ids, w')
      → (w₁ : World) × (ben₂ : Transaction P) × (anna₂ : Transaction P) × (on P script repo
            (commit P)
            ben
            w
          ≡ (ok (ids.0, ben₂), w₁))
        × (on P script repo (commit P) anna w₁ ≡ (ok (ids.1, anna₂), w'))
  unfolding both_commit
  both_commit-ran ben anna w w' ids h =
      let ((_, b), (_, a), w₁, first, second, same) =
        both-ran (on P script repo (commit P) ben) (λ _. on P script repo (commit P) anna)
          (λ x y. (x.0, y.0)) w w' h in
      (w₁, b, a, ground (arith, first, same), ground (arith, second, same))
