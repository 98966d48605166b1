-- ===== src/Transaction/Writers/InTurn.antt =====
-- What the branch comes to, whatever the writers do in whichever order, against the same commits
-- one after another.
use icechest.Base.{String, ◌≡◌, refl, Bool, false, Option, some, List, [], ◌++◌, append-nil}
use icechest.Base.Dict.{Dict}
use icechest.Base.Exec.{ok}
use icechest.Catalog.{current_pointers}
use icechest.Intent.{TableIntent}
use icechest.Platform.{Platform}
use icechest.Platform.Laws.{KeepsPlace, IsHistory, IsUndisturbed, IsClosed}
use icechest.Pointer.{read_pointers}
use icechest.Transaction.Commit.{apply_all, round}
use icechest.Transaction.State.{HybridRepo, Transaction, catalog_for}
use icechest.Transaction.Window.{Operation}
use icechest.Transaction.Writers.{Writers, Reach}
use icechest.Transaction.Writers.Landing.{Landing, turn_rule}
use icechest.Transaction.Writers.Pool.{Carried, Reach-Holds}
use icechest.Transaction.Writers.Turns.{turn-keeps_pointers}

module _ (P : Platform) where
  open P use {World, lookup_branch}

  module _ (parent : String → World → Option String) (repo : HybridRepo) (branch : String)
      (start : String) (base : Dict String) where
    -- The snapshots of the branch from `start`, which holds `base`, to the tip `id`, which holds
    -- `pointers`: each is the child of the one before it, and holds what the intents of one commit,
    -- applied once and in order to a new catalog of the pointers before it, without an error, in a
    -- world with that tip, make of them.
    pub data InTurn : List (TableIntent P) → String → Dict String → Type 0 where
      at_start : InTurn [] start base
      and_then :
          (landed intents : List (TableIntent P)) (tip id : String)
          (pointers pointers' : Dict String) (at after : World)
          → InTurn landed tip pointers
          → lookup_branch branch at ≡ ok tip
          → read_pointers P tip at ≡ ok pointers
          → (apply_all P intents (catalog_for repo pointers false, at)).0 ≡ ok tt
          → pointers'
            ≡ current_pointers (apply_all P intents (catalog_for repo pointers false, at)).1.0
          → parent id after ≡ some tip
          → read_pointers P id after ≡ ok pointers'
          → InTurn (landed ++ intents) id pointers'

    -- The tip of the branch is what the commits come to, one after another.
    pub record IsInTurn (landed : List (TableIntent P)) (w : World) : Type 0 where
      pub tip : String
      pub pointers : Dict String
      pub found : lookup_branch branch w ≡ ok tip
      pub read : read_pointers P tip w ≡ ok pointers
      pub in_turn : InTurn landed tip pointers

    lands :
        (landed : List (TableIntent P)) (first : Bool) (tx : Transaction P) (w : World)
        (now : IsInTurn landed w)
        → Landing P parent repo branch now.tip now.pointers first tx w
        → IsInTurn (landed ++ tx.intents) (round P first (tx, w)).1.1
    lands landed first tx w now landing =
        let same : apply_all P tx.intents (tx.catalog, w)
            ≡ apply_all P tx.intents (catalog_for repo now.pointers false, w) =
          cc (landing.clean, landing.same_base) in
        record {
          tip = landing.id;
          pointers = current_pointers (apply_all P tx.intents (tx.catalog, w)).1.0;
          found = landing.found;
          read = landing.read;
          in_turn =
              and_then landed tx.intents now.tip landing.id now.pointers _ w
                (round P first (tx, w)).1.1 now.in_turn now.found now.read
                (rw (← same) landing.applied) (rw same refl) landing.is_parent landing.read;
        }

  module _ {parent : String → World → Option String} (history : IsHistory P parent)
      (in_place : KeepsPlace P) (repo : HybridRepo) (branch : String)
      (calm : IsUndisturbed P branch) (closed : IsClosed P branch) (start : String)
      (base : Dict String) where
    turn-Carried :
        Carried P repo branch (λ intents. Unit {0}) (IsInTurn parent repo branch start base)
    turn-Carried landed writer w healthy now =
        turn_rule P history repo branch closed now.tip now.pointers (λ intents. Unit {0}) w
          now.found now.read (λ more w'. IsInTurn parent repo branch start base (landed ++ more) w')
          writer healthy
          (λ found. record {
            tip = now.tip;
            pointers = now.pointers;
            found = found;
            read = turn-keeps_pointers P history now.tip writer w now.read;
            in_turn = rw (append-nil landed) now.in_turn;
          })
          (λ first on_stage landing.
            lands parent repo branch start base landed first writer.tx w now landing)

    -- Any number of writers of one repository are one writer at a time: where nobody else writes to
    -- the branch, snapshots keep what they hold, a rebase takes a session to the tip and Zarr leaves
    -- a session on its snapshot, then in whatever order they begin, make staging calls, write arrays
    -- and take the turns of their commits, the tip of the branch is what the commits that went
    -- through so far come to from the tip at the start, one after another: each is the child of the
    -- one before it, and holds what its intents, applied once and in order to a new catalog of the
    -- pointers before it, make of them.
    pub Reach-IsInTurn :
        (allowed : Operation P → Bool) (w : World) (s : Writers P)
        → lookup_branch branch w ≡ ok start
        → read_pointers P start w ≡ ok base
        → Reach P allowed repo branch (record { pool = []; world = w; landed = [] }) s
        → IsInTurn parent repo branch start base s.landed s.world
    Reach-IsInTurn allowed w s found read reached =
        Reach-Holds P repo branch (λ intents. Unit {0}) history in_place calm closed allowed tt
          (λ operation tx w may fits. tt) turn-Carried w s
          (record { tip = start; pointers = base; found = found; read = read; in_turn = at_start })
          reached
