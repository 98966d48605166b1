-- ===== src/Transaction/Writers/Pool.antt =====
-- A rule for whatever the writers of a pool do: what each turn carries on is carried on throughout.
use icechest.Base.{String, ◌≡◌, subst, Bool, true, Option, List, [], ◌∷◌, ◌++◌}
use icechest.Intent.{TableIntent}
use icechest.Platform.{Platform}
use icechest.Platform.Laws.{KeepsPlace, IsHistory, IsUndisturbed, IsClosed}
use icechest.Transaction.State.{HybridRepo, Transaction}
use icechest.Transaction.Window.{Operation, perform}
use icechest.Transaction.Writers.{
  Writer, Writers, turn, Step, begins, stages, writes, turns, Reach, here, next,
}
use icechest.Transaction.Writers.Health.{
  IsHealthy, turn-IsHealthy, turn-IsHealthy_other, stage-IsHealthy, write-IsHealthy,
  begin-IsHealthy,
}
use icechest.Transaction.Writers.Noted.{perform-world}

module _ (P : Platform) where
  open P use {World}

  module _ (repo : HybridRepo) (branch : String) (Fits : List (TableIntent P) → Type 0) where
    -- Every writer of a pool is healthy.
    Everyone : World → List (Writer P) → Type 0
    Everyone w [] = Unit {0}
    Everyone w (writer ∷ rest) = IsHealthy P repo branch Fits w writer × Everyone w rest

    Everyone-split :
        (w : World) (before after : List (Writer P)) (writer : Writer P)
        → Everyone w (before ++ writer ∷ after)
        → Everyone w before × IsHealthy P repo branch Fits w writer × Everyone w after
    unfolding Everyone
    Everyone-split w [] after writer (h, rest) = (tt, h, rest)
    Everyone-split w (first ∷ before) after writer (h, rest) =
        let (b, x, a) = Everyone-split w before after writer rest in ((h, b), x, a)

    Everyone-join :
        (w : World) (before after : List (Writer P)) (writer : Writer P)
        → Everyone w before
        → IsHealthy P repo branch Fits w writer
        → Everyone w after
        → Everyone w (before ++ writer ∷ after)
    unfolding Everyone
    Everyone-join w [] after writer b x a = (x, a)
    Everyone-join w (first ∷ before) after writer (h, b) x a =
        (h, Everyone-join w before after writer b x a)

    Everyone-moved :
        (w w' : World)
        → ((writer : Writer P)
            → IsHealthy P repo branch Fits w writer
            → IsHealthy P repo branch Fits w' writer)
        → (pool : List (Writer P)) → Everyone w pool
        → Everyone w' pool
    unfolding Everyone
    Everyone-moved w w' moved [] h = tt
    Everyone-moved w w' moved (writer ∷ rest) (h, others) =
        (moved writer h, Everyone-moved w w' moved rest others)

    -- What a writer's turn, and the intents that it publishes, carry on.
    abbrev pub Carried : (List (TableIntent P) → World → Type 0) → Type 0
    Carried Holds =
        (landed : List (TableIntent P)) (writer : Writer P) (w : World)
        → IsHealthy P repo branch Fits w writer
        → Holds landed w
        → let x = turn P writer w in Holds (landed ++ x.2) x.1

    module _ {parent : String → World → Option String} (history : IsHistory P parent)
        (in_place : KeepsPlace P) (calm : IsUndisturbed P branch) (closed : IsClosed P branch)
        (allowed : Operation P → Bool) (none_fits : Fits [])
        (still_fits : (operation : Operation P) (tx : Transaction P) (w : World)
          → allowed operation ≡ true
          → Fits tx.intents
          → Fits (perform P operation (tx, w)).1.0.intents)
        {Holds : List (TableIntent P) → World → Type 0} (carried : Carried Holds) where
      record IsCarried (s : Writers P) : Type 0 where
        everyone : Everyone s.world s.pool
        holds : Holds s.landed s.world

      -- The writers after a turn.
      abbrev turned :
          List (Writer P)
          → List (Writer P)
          → List (TableIntent P)
          → Writer P × World × List (TableIntent P)
          → Writers P
      turned before after landed (writer, w, intents) = record {
        pool = before ++ writer ∷ after;
        world = w;
        landed = landed ++ intents;
      }

      turn-IsCarried :
          (before after : List (Writer P)) (writer : Writer P) (w : World)
          (landed : List (TableIntent P))
          → IsCarried (record { pool = before ++ writer ∷ after; world = w; landed = landed })
          → IsCarried (turned before after landed (turn P writer w))
      turn-IsCarried before after writer w landed h =
          let (b, x, a) = Everyone-split w before after writer h.everyone in
          let w' = (turn P writer w).1 in
          let others =
            Everyone-moved w w'
              (λ other. turn-IsHealthy_other P repo branch Fits history calm writer other w) in
          record {
            everyone =
                Everyone-join w' before after _ (others before b)
                  (turn-IsHealthy P repo branch Fits history calm writer w x) (others after a);
            holds = carried landed writer w x h.holds;
          }

      Step-IsCarried :
          {s t : Writers P} → Step P allowed repo branch s t → IsCarried s → IsCarried t
      unfolding Everyone
      Step-IsCarried (begins pool w landed message max_retries tx begun) h = record {
        everyone = (
          begin-IsHealthy P repo branch Fits closed none_fits message max_retries w begun,
          h.everyone,
        );
        holds = h.holds;
      }
      Step-IsCarried (stages before after tx w landed operation may) h =
          let (b, x, a) = Everyone-split w before after _ h.everyone in
          let staged =
            stage-IsHealthy P repo branch Fits in_place operation tx w
              (still_fits operation tx w may) x in
          rw (perform-world P operation tx w)
            (record { everyone = Everyone-join w before after _ b staged a; holds = h.holds })
      Step-IsCarried (writes before after tx session w landed same_branch same_base) h =
          let (b, x, a) = Everyone-split w before after _ h.everyone in
          record {
            everyone =
                Everyone-join w before after _ b
                  (write-IsHealthy P repo branch Fits tx session w same_branch same_base x) a;
            holds = h.holds;
          }
      Step-IsCarried (turns before after writer writer' w w' landed intents taken) h =
          subst (λ x. IsCarried (turned before after landed x)) taken
            (turn-IsCarried before after writer w landed h)

      -- What holds at the start, and is carried on by the turns, holds after any steps.
      pub Reach-Holds :
          (w : World) (s : Writers P)
          → Holds [] w
          → Reach P allowed repo branch (record { pool = []; world = w; landed = [] }) s
          → Holds s.landed s.world
      unfolding Everyone
      Reach-Holds w s now reached = (go reached).holds
        where
          go :
              {t : Writers P}
              → Reach P allowed repo branch (record { pool = []; world = w; landed = [] }) t
              → IsCarried t
          go here = record { everyone = tt; holds = now }
          go (next reached step) = Step-IsCarried step (go reached)
