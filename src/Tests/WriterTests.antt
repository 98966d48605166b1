-- ===== src/Tests/WriterTests.antt =====
-- Two writers append to one table at once, on the platform in memory without others.
use icechest.Base.{ℕ, String, ◌≡◌, refl, true, false, none, List, [], ◌∷◌, ◌++◌, rstrip_slash}
use icechest.Base.Dict
use icechest.Base.Dict.{Dict}
use icechest.Base.Exec.{Result, ok}
use icechest.Errors.{Error}
use icechest.Catalog.{new_catalog}
use icechest.Intent.{TableIntent, append_rows}
use icechest.Pointer.{read_pointers}
use icechest.Transaction.{HybridRepo, Transaction, begin, catalog_for, append}
use icechest.Transaction.Window.{appending, perform}
use icechest.Transaction.Writers.Noted.{harmless}
use icechest.Transaction.Writers.{
  working, Writer, Writers, turn, begins, stages, turns, Reach, here, next,
}
use icechest.Transaction.Writers.Tip.{TipCounts}
use icechest.Transaction.Writers.Conserved.{Reach-TipCounts}
use icechest.Transaction.Writers.Untouched.{Reach-untouched}
use icechest.Transaction.Writers.InTurn.{IsInTurn, Reach-IsInTurn}
use icechest.Transaction.Writers.Runs.{RanTo, commit-RanTo}
use icechest.Tests.CatalogTests.{seeded, seed}
use icechest.Tests.Memory.{memory, closed, parent_on_disk, try_commit, occurrences, Meta, Disk}
use icechest.Tests.ClosedLaws.{
  closed-IsHistory, closed-IsUndisturbed, closed-ReadsBack, closed-IsCount, closed-KeepsFiles,
  closed-IsClosed, closed-KeepsPlace,
}
use icechest.Tests.TransactionTests.{machine, start, contested, raced}

abbrev pub lake : HybridRepo
lake = record { warehouse = "w"; io_properties = [] }

-- A transaction as it begins on the seeded repository.
abbrev begun : String → List (TableIntent closed) → Transaction closed
begun message intents = record {
  repo = lake;
  branch = "main";
  message = message;
  max_retries = 3;
  intents = intents;
  base_snapshots = [];
  unmanaged_staged = [];
  session = record { branch = "main"; at = "root"; dirty = false; attributes = [] };
  catalog = record {
    warehouse = "w";
    pointers = ("g", "w/g/metadata/0.json") ∷ [];
    staged = [];
    properties = [];
    read_only = false;
  };
  snapshot_id = none;
}

abbrev pub ready : String → List (TableIntent closed) → Writer closed
ready message intents = record { stage = working true; tx = begun message intents }

abbrev pub first_rows : List (TableIntent closed)
first_rows = append_rows "g" (3 ∷ 4 ∷ []) ∷ []

abbrev second_rows : List (TableIntent closed)
second_rows = append_rows "g" (3 ∷ []) ∷ []

abbrev Turned : Type 0
Turned = Writer closed × Disk × List (TableIntent closed)

-- The first writer lands, the second meets its commit, recovers, and lands.
lands : Turned
unfolding turn machine try_commit
lands = turn closed (ready "a" first_rows) seeded

collides : Turned
unfolding turn machine try_commit lands
collides = turn closed (ready "b" second_rows) (lands.1)

recovers : Turned
unfolding turn machine try_commit collides
recovers = turn closed collides.0 collides.1

lands_too : Turned
unfolding turn machine try_commit recovers
lands_too = turn closed recovers.0 recovers.1

abbrev State : List (Writer closed) → Disk → List (TableIntent closed) → Writers closed
State pool d landed = record { pool = pool; world = d; landed = landed }

started :
    Reach closed
      (harmless closed "g")
      lake
      "main"
      (State [] seeded [])
      (State (ready "b" second_rows ∷ ready "a" first_rows ∷ []) seeded [])
unfolding begin perform append catalog_for new_catalog rstrip_slash read_pointers
started =
    next
      (next
        (next (next here (begins [] seeded [] "a" 3 (begun "a" []) refl))
          (begins (ready "a" [] ∷ []) seeded [] "b" 3 (begun "b" []) refl))
        (stages (ready "b" [] ∷ []) [] (begun "a" []) seeded [] (appending "g" (3 ∷ 4 ∷ [])) refl))
      (stages [] (ready "a" first_rows ∷ []) (begun "b" []) seeded [] (appending "g" (3 ∷ [])) refl)

-- Both writers are done.
abbrev final : Writers closed
final =
    State (lands_too.0 ∷ lands.0 ∷ []) lands_too.1
      (((lands.2 ++ collides.2) ++ recovers.2) ++ lands_too.2)

ended : Reach closed (harmless closed "g") lake "main" (State [] seeded []) final
unfolding lands collides recovers lands_too
ended =
    next
      (next
        (next
          (next started (
            turns (ready "b" second_rows ∷ []) [] (ready "a" first_rows) lands.0 seeded lands.1 []
              lands.2 refl))
          (turns [] (lands.0 ∷ []) (ready "b" second_rows) collides.0 lands.1 collides.1 lands.2
            collides.2 refl))
        (turns [] (lands.0 ∷ []) collides.0 recovers.0 collides.1 recovers.1 (lands.2 ++ collides.2)
          recovers.2 refl))
      (turns [] (lands.0 ∷ []) recovers.0 lands_too.0 recovers.1 lands_too.1
        ((lands.2 ++ collides.2) ++ recovers.2) lands_too.2 refl)

at_start : TipCounts closed lake "main" "g" (λ (m : Meta). occurrences 3 m.rows) 0 seeded
unfolding read_pointers
at_start = record {
  tip = "root";
  base = ("g", "w/g/metadata/0.json") ∷ [];
  metadata = seed;
  found = refl;
  read = refl;
  at = record { location = "w/g/metadata/0.json"; there = refl; read = refl };
  counted = refl;
}

Reach-TipCounts_example :
    TipCounts closed lake "main" "g" (λ (m : Meta). occurrences 3 m.rows) 2 lands_too.1
unfolding lands_too
Reach-TipCounts_example =
    Reach-TipCounts closed lake "main" "g" closed-IsHistory closed-KeepsPlace closed-ReadsBack
      closed-KeepsFiles (closed-IsCount 3) (closed-IsUndisturbed "main") (closed-IsClosed "main") 0
      seeded final at_start ended

commit-RanTo_example :
    RanTo
      (memory false)
      (λ operation. true)
      lake
      "main"
      []
      []
      []
      (start false)
      contested
      raced.0
      raced.1.0
      raced.1.1
unfolding raced
commit-RanTo_example =
    commit-RanTo (memory false) (λ operation. true) lake "main" [] [] [] (start false) contested
      refl

-- The two commits, the second of which met a conflict, are one after the other.
Reach-IsInTurn_example :
    IsInTurn closed parent_on_disk lake "main" "root"
      (("g", "w/g/metadata/0.json") ∷ [])
      final.landed
      final.world
unfolding read_pointers
Reach-IsInTurn_example =
    Reach-IsInTurn closed closed-IsHistory closed-KeepsPlace lake "main"
      (closed-IsUndisturbed "main") (closed-IsClosed "main") "root"
      (("g", "w/g/metadata/0.json") ∷ []) (harmless closed "g") seeded final refl refl ended

-- Neither writer is about `h`, which is not there.
Reach-untouched_example :
    (tip : String) × (pointers : Dict String) × (◌≡◌ {A = Result (Error ℕ) String}
      (ok lands_too.1.tip)
      (ok tip))
    × (read_pointers closed tip final.world ≡ ok pointers)
    × (Dict.get "h" pointers ≡ Dict.get "h" (("g", "w/g/metadata/0.json") ∷ []))
unfolding lands collides recovers lands_too read_pointers
Reach-untouched_example =
    Reach-untouched closed closed-IsHistory closed-KeepsPlace lake "main"
      (closed-IsUndisturbed "main") (closed-IsClosed "main") "root"
      (("g", "w/g/metadata/0.json") ∷ []) (harmless closed "g") seeded final "h" refl refl ended
      refl
