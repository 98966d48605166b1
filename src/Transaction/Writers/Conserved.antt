-- ===== src/Transaction/Writers/Conserved.antt =====
-- What the table at the tip counts, whatever the writers do in whichever order.
use icechest.Base.{ℕ, ◌+◌, String, ◌≡◌, refl, Option, List, [], ◌∷◌, ◌++◌, arith}
use icechest.Intent.{TableIntent, create, append_rows, delete_rows, overwrite_rows}
use icechest.Platform.{Platform}
use icechest.Platform.Laws.{
  KeepsPlace, IsHistory, IsUndisturbed, IsClosed, ReadsBack, KeepsFiles, IsCount,
}
use icechest.Transaction.State.{HybridRepo}
use icechest.Transaction.Rows.{given_to}
use icechest.Transaction.Writers.{Writers, turn, Reach}
use icechest.Transaction.Writers.Noted.{harmless, AppendsOnly, perform-only_appends}
use icechest.Transaction.Writers.Pool.{Carried, Reach-Holds}
use icechest.Transaction.Writers.Tip.{TipCounts, add_zero, turn-TipCounts}

module _ (P : Platform) where
  open P use {World, Metadata, Rows}

  given_to-append :
      (given : Rows → ℕ) (j : String) (xs ys : List (TableIntent P))
      → given_to P given j (xs ++ ys) ≡ given_to P given j xs + given_to P given j ys
  given_to-append given j [] ys = omega arith
  given_to-append given j (append_rows name rows ∷ xs) ys =
      ground (arith, given_to-append given j xs ys)
  given_to-append given j (create name schema location properties spec order ∷ xs) ys =
      given_to-append given j xs ys
  given_to-append given j (delete_rows name predicate ∷ xs) ys = given_to-append given j xs ys
  given_to-append given j (overwrite_rows name rows predicate ∷ xs) ys =
      given_to-append given j xs ys

  add_assoc : (a b c : ℕ) → a + (b + c) ≡ a + b + c
  add_assoc a b c = omega arith

  module _ (repo : HybridRepo) (branch j : String) where
    module _ {parent : String → World → Option String} (history : IsHistory P parent)
        (in_place : KeepsPlace P) (stored : ReadsBack P) (files : KeepsFiles P)
        {count : Metadata → ℕ} {given : Rows → ℕ} (counts : IsCount P count given)
        (calm : IsUndisturbed P branch) (closed : IsClosed P branch) (start : ℕ) where
      turn-Carried :
          Carried P repo branch
            (AppendsOnly P j)
            (λ landed w. TipCounts P repo branch j count (start + given_to P given j landed) w)
      turn-Carried landed writer w healthy now =
          let more = (turn P writer w).2 in
          rw
            (
              given_to-append given j landed more,
              add_assoc start (given_to P given j landed) (given_to P given j more),
            )
            (turn-TipCounts P history stored files counts repo branch j closed writer w healthy now)

      -- Whatever the order in which any number of writers of one repository begin, append to a
      -- table, create, delete from and overwrite others, write arrays, and take the turns of their
      -- commits: where nobody else writes to the branch, snapshots and files read back and keep what
      -- they hold, a rebase takes a session to the tip and Zarr leaves a session on its snapshot, by
      -- any count that an append raises by its rows, such as how often a row occurs, the table at the
      -- tip counts what it counted at the start and, once for each, what the commits that went
      -- through so far have appended to it.
      pub Reach-TipCounts :
          (w : World) (s : Writers P)
          → TipCounts P repo branch j count start w
          → Reach P (harmless P j) repo branch (record { pool = []; world = w; landed = [] }) s
          → TipCounts P repo branch j count (start + given_to P given j s.landed) s.world
      Reach-TipCounts w s now reached =
          Reach-Holds P repo branch (AppendsOnly P j) history in_place calm closed (harmless P j)
            refl (perform-only_appends P j) turn-Carried w s (rw (add_zero start) now) reached
