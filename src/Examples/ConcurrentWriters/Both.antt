-- ===== src/Examples/ConcurrentWriters/Both.antt =====
-- Ben's and Anna's rows, both there after both commits.
use icechest.Base.{ℕ, ◌+◌, String, ◌≡◌, true, Option, [], ◌∷◌, ◌++◌, ◌==◌, arith, eq_refl}
use icechest.Base.Exec.{ok, ◌>>=◌, bind-ok}
use icechest.Examples.ConcurrentWriters.{
  Script, row, opens, on, ingest, both_write, both_commit, both_ingest,
}
use icechest.Examples.ConcurrentWriters.Calls.{
  State, ready, Reaches, begin-Reaches, ready-managed, ingest-Reaches, commit-Reaches,
  both_write-ran, both_commit-ran, WritesInPlace,
}
use icechest.Intent.{append_rows}
use icechest.Platform.{Platform}
use icechest.Platform.Laws.{IsHistory, IsUndisturbed, IsClosed, ReadsBack, KeepsFiles, IsCount}
use icechest.Transaction.{HybridRepo, Transaction, commit}
use icechest.Transaction.Rows.{given_to}
use icechest.Transaction.Writers.{Reach-trans}
use icechest.Transaction.Writers.Conserved.{Reach-TipCounts}
use icechest.Transaction.Writers.Tip.{TipCounts}

module _ (P : Platform) (script : Script P) (repo : HybridRepo) where
  open P use {World, Metadata, Rows, table_name_from}

  given_to-both :
      (given : Rows → ℕ) (rows more : Rows)
      → table_name_from "granules" ≡ "granules"
      → given_to P given "granules" (append_rows "granules" rows ∷ append_rows "granules" more ∷ [])
        ≡ given rows + given more
  given_to-both given rows more plain =
      let named : (table_name_from "granules" == "granules") ≡ true =
        rw plain (eq_refl "granules") in
      ground (arith, named)

  module _ (in_place : WritesInPlace P script repo) {parent : String → World → Option String}
      (history : IsHistory P parent) (stored : ReadsBack P) (files : KeepsFiles P)
      {count : Metadata → ℕ} {given : Rows → ℕ} (counts : IsCount P count given)
      (calm : IsUndisturbed P "main") (closed : IsClosed P "main") where
    -- The same of the script's calls, one by one.
    calls-TipCounts :
        {total : ℕ} (w w₁ w₂ w₃ w₄ w₅ w' : World) (ben anna ben₁ anna₁ : Transaction P)
        {ben₂ anna₂ : Transaction P} {ids : String × String}
        → table_name_from "granules" ≡ "granules"
        → TipCounts P repo "main" "granules" count total w
        → opens P script repo "ben ingests G-100" w ≡ (ok ben, w₁)
        → opens P script repo "anna ingests G-200" w₁ ≡ (ok anna, w₂)
        → on P script repo
            (ingest P script repo 0 10 1 (row script "G-100" "2026-03-01" "0:10"))
            ben
            w₂
          ≡ (ok (tt, ben₁), w₃)
        → on P script repo
            (ingest P script repo 200 210 2 (row script "G-200" "2026-03-02" "200:210"))
            anna
            w₃
          ≡ (ok (tt, anna₁), w₄)
        → on P script repo (commit P) ben₁ w₄ ≡ (ok (ids.0, ben₂), w₅)
        → on P script repo (commit P) anna₁ w₅ ≡ (ok (ids.1, anna₂), w')
        → TipCounts P repo "main" "granules" count
            (total
              + (given (row script "G-100" "2026-03-01" "0:10")
                  + given (row script "G-200" "2026-03-02" "200:210")))
            w'
    unfolding Reaches
    calls-TipCounts {total} w w₁ w₂ w₃ w₄ w₅ w' ben anna ben₁ anna₁ plain now opens_ben opens_anna
          ingests_ben ingests_anna commits_ben commits_anna =
        let (managed_ben, ben_rows) =
          ready-managed P script repo in_place _ 0 10 1 _ w w₁ w₂ w₃ opens_ben ingests_ben in
        let (managed_anna, anna_rows) =
          ready-managed P script repo in_place _ 200 210 2 _ w₁ w₂ w₃ w₄ opens_anna ingests_anna in
        let (b, ben_lands) =
          commit-Reaches P script repo (ready P anna₁ ∷ []) [] [] ben₁ w₄ w₅ managed_ben
            commits_ben in
        let (a, anna_lands) =
          commit-Reaches P script repo [] (b ∷ []) ben₁.intents anna₁ w₅ w' managed_anna
            commits_anna in
        let begun = begin-Reaches P script repo w w₁ w₂ ben anna opens_ben opens_anna in
        let noted =
          Reach-trans P
            (ingest-Reaches P script repo in_place 0 10 1 _ (ready P anna ∷ []) [] [] ben w₂ w₃
              ingests_ben)
            (ingest-Reaches P script repo in_place 200 210 2 _ [] (ready P ben₁ ∷ []) [] anna w₃ w₄
              ingests_anna) in
        let counted =
          Reach-TipCounts P repo "main" "granules" history (in_place.place) stored files counts calm
            closed total w (State P (a ∷ b ∷ []) w' (ben₁.intents ++ anna₁.intents)) now
            (Reach-trans P (Reach-trans P begun noted) (Reach-trans P ben_lands anna_lands)) in
        let same : given_to P given "granules" (ben₁.intents ++ anna₁.intents)
            ≡ given (row script "G-100" "2026-03-01" "0:10")
              + given (row script "G-200" "2026-03-02" "200:210") =
          rw (ben_rows, anna_rows) (given_to-both given _ _ plain) in
        rw (← same) counted

    -- Where nobody else writes to the branch, the libraries keep what they hold, and `granules` is a
    -- plain name: if Ben and Anna both ingest and both commits return, the table at the tip counts
    -- what it counted before, and the rows of both.
    pub both_ingest-TipCounts :
        {total : ℕ} (w w' : World) (ids : String × String)
        → table_name_from "granules" ≡ "granules"
        → TipCounts P repo "main" "granules" count total w
        → both_ingest P script repo w ≡ (ok ids, w')
        → TipCounts P repo "main" "granules" count
            (total
              + (given (row script "G-100" "2026-03-01" "0:10")
                  + given (row script "G-200" "2026-03-02" "200:210")))
            w'
    unfolding both_ingest
    both_ingest-TipCounts {total} w w' ids plain now done =
        let (ben, w₁, opens_ben, done₁) =
          bind-ok (opens P script repo "ben ingests G-100")
            (λ b. opens P script repo "anna ingests G-200" >>= λ a.
              both_write P script repo b a >>= λ x. both_commit P script repo x.0 x.1)
            w done in
        let (anna, w₂, opens_anna, done₂) =
          bind-ok (opens P script repo "anna ingests G-200")
            (λ a. both_write P script repo ben a >>= λ x. both_commit P script repo x.0 x.1) w₁
            done₁ in
        let ((ben₁, anna₁), w₃, wrote, done₃) =
          bind-ok (both_write P script repo ben anna) (λ x. both_commit P script repo x.0 x.1) w₂
            done₂ in
        let (w₄, ingests_ben, ingests_anna) =
          both_write-ran P script repo ben anna ben₁ anna₁ w₂ w₃ wrote in
        let (w₅, _, _, commits_ben, commits_anna) =
          both_commit-ran P script repo ben₁ anna₁ w₃ w' ids done₃ in
        calls-TipCounts w w₁ w₂ w₄ w₃ w₅ w' ben anna ben₁ anna₁ plain now opens_ben opens_anna
          ingests_ben ingests_anna commits_ben commits_anna
