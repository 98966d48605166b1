-- ===== src/Transaction/Writers.antt =====
-- Any number of writers on one branch, in any order: each begins a transaction, makes the
-- staging calls that are allowed, writes arrays, and takes the turns of its commit, a round or a recovery at a time.
pub mod Noted
pub mod Turns
pub mod Health
pub mod Landing
pub mod InTurn
pub mod Untouched
pub mod Pool
pub mod Tip
pub mod Conserved
pub mod Runs
use icechest.Base.{
  ℕ, ◌+◌, String, ◌≡◌, Bool, true, false, Option, none, List, [], ◌∷◌, ◌++◌, if◌then◌else◌,
}
use icechest.Base.Exec.{Result, ok, err}
use icechest.Errors.{Error}
use icechest.Intent.{TableIntent}
use icechest.Platform.{Platform}
use icechest.Transaction.State.{HybridRepo, Transaction, begin}
use icechest.Transaction.Commit.{round, recover, is_conflict}
use icechest.Transaction.Window.{Operation, perform}

-- What a writer does next: a round, the first or a later one; a recovery; or nothing.
pub data Stage : Type 0 where
  working : Bool → Stage
  conflicted over : Stage

module _ (P : Platform) where
  open P use {World, Rows, Session, Expression, session_branch, session_snapshot_id}

  pub record Writer : Type 0 where
    pub stage : Stage
    pub tx : Transaction P

  -- The stage after a round.
  abbrev pub after_round : Result (Error Expression) (Result (Error Expression) String) → Stage
  after_round (ok (ok id)) = over
  after_round (ok (err e)) = if is_conflict P e then conflicted else over
  after_round (err e) = over

  abbrev pub after_recovery : Result (Error Expression) (Unit {0}) → Stage
  after_recovery (ok done) = working false
  after_recovery (err e) = over

  -- The intents that a round published.
  abbrev pub published :
      List (TableIntent P)
      → Result (Error Expression) (Result (Error Expression) String)
      → List (TableIntent P)
  published intents (ok (ok id)) = intents
  published intents (ok (err e)) = []
  published intents (err e) = []

  -- A writer's turn: the writer and the world after it, and the intents that it published.
  unfoldable pub turn : Writer → World → Writer × World × List (TableIntent P)
  turn writer w = elim writer.stage [
    | working first ↦
        let (r, (tx, w')) = round P first (writer.tx, w) in
        (record { stage = after_round r; tx = tx }, w', published writer.tx.intents r)
    | conflicted ↦
        let (r, (tx, w')) = recover P (writer.tx, w) in
        (record { stage = after_recovery r; tx = tx }, w', [])
    | over ↦ (writer, w, [])
  ]

  -- The writers, the world, and the intents of every commit that returned so far.
  pub record Writers : Type 0 where
    pub pool : List Writer
    pub world : World
    pub landed : List (TableIntent P)

  pub data Step (allowed : Operation P → Bool) (repo : HybridRepo) (branch : String)
      : Writers → Writers → Type 0 where
    -- A writer begins a transaction, on a session of its own.
    begins :
        (pool : List Writer) (w : World) (landed : List (TableIntent P)) (message : String)
        (max_retries : ℕ) (tx : Transaction P)
        → begin P repo branch message max_retries none w ≡ ok tx
        → Step allowed repo branch
            (record { pool = pool; world = w; landed = landed })
            (record {
              pool = record { stage = working true; tx = tx } ∷ pool;
              world = w;
              landed = landed;
            })
    -- A writer that has not committed yet makes a staging call, whether it returns or raises.
    stages :
        (before after : List Writer) (tx : Transaction P) (w : World)
        (landed : List (TableIntent P)) (operation : Operation P)
        → allowed operation ≡ true
        → Step allowed repo branch
            (record {
              pool = before ++ record { stage = working true; tx = tx } ∷ after;
              world = w;
              landed = landed;
            })
            (record {
              pool =
                  before
                  ++ record { stage = working true; tx = (perform P operation (tx, w)).1.0 }
                    ∷ after;
              world = (perform P operation (tx, w)).1.1;
              landed = landed;
            })
    -- A writer that has not committed yet writes arrays through its session.
    writes :
        (before after : List Writer) (tx : Transaction P) (session : Session) (w : World)
        (landed : List (TableIntent P))
        → session_branch session ≡ session_branch tx.session
        → session_snapshot_id session ≡ session_snapshot_id tx.session
        → Step allowed repo branch
            (record {
              pool = before ++ record { stage = working true; tx = tx } ∷ after;
              world = w;
              landed = landed;
            })
            (record {
              pool =
                  before
                  ++ record { stage = working true; tx = record tx { session = session } } ∷ after;
              world = w;
              landed = landed;
            })
    -- A writer takes its turn.
    turns :
        (before after : List Writer) (writer writer' : Writer) (w w' : World)
        (landed intents : List (TableIntent P))
        → turn writer w ≡ (writer', w', intents)
        → Step allowed repo branch
            (record { pool = before ++ writer ∷ after; world = w; landed = landed })
            (record { pool = before ++ writer' ∷ after; world = w'; landed = landed ++ intents })

  pub data Reach (allowed : Operation P → Bool) (repo : HybridRepo) (branch : String) (s : Writers)
      : Writers → Type 0 where
    here : Reach allowed repo branch s s
    next :
        {t u : Writers}
        → Reach allowed repo branch s t
        → Step allowed repo branch t u
        → Reach allowed repo branch s u

  pub Reach-trans :
      {allowed : Operation P → Bool} {repo : HybridRepo} {branch : String} {s t u : Writers}
      → Reach allowed repo branch s t
      → Reach allowed repo branch t u
      → Reach allowed repo branch s u
  Reach-trans first here = first
  Reach-trans first (next later step) = next (Reach-trans first later) step
