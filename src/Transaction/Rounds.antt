-- ===== src/Transaction/Rounds.antt =====
-- An induction rule for the retry loop: an invariant at the start of each round, and what it gives
-- at each way in which the loop may end.
use icechest.Base.{ℕ, zero, suc, String, ◌≡◌, refl, ap, Bool, true, false, some}
use icechest.Base.Exec.{Result, ok, err, raise, ◌>>=◌, ◌>>◌}
use icechest.Errors.{Error, conflict}
use icechest.Platform.{Platform}
use icechest.Transaction.State.{TransactionExec, Transaction}
use icechest.Transaction.Commit.{round, conclude, recover, commit_rounds, is_conflict}

module _ (P : Platform) where
  open P use {World, Expression}

  -- `Start first tx w` holds before a round; `End r tx w` is to hold when the loop ends with `r`.
  pub record LoopRule (Start : Bool → Transaction P → World → Type 0)
      (End : Result (Error Expression) String → Transaction P → World → Type 0) : Type 0 where
    pub raised :
        (first : Bool) (tx : Transaction P) (w : World)
        → Start first tx w
        → (e : Error Expression) → (round P first (tx, w)).0 ≡ err e
        → let s = (round P first (tx, w)).1 in End (err e) s.0 s.1
    pub published :
        (first : Bool) (tx : Transaction P) (w : World)
        → Start first tx w
        → (id : String) → (round P first (tx, w)).0 ≡ ok (ok id)
        → let s = (round P first (tx, w)).1 in
          End (ok id) (record s.0 { snapshot_id = some id }) s.1
    pub refused :
        (first : Bool) (tx : Transaction P) (w : World)
        → Start first tx w
        → (e : Error Expression) → (round P first (tx, w)).0 ≡ ok (err e)
        → let s = (round P first (tx, w)).1 in End (err e) s.0 s.1
    pub not_recovered :
        (first : Bool) (tx : Transaction P) (w : World)
        → Start first tx w
        → (round P first (tx, w)).0 ≡ ok (err conflict)
        → (e : Error Expression) → (recover P (round P first (tx, w)).1).0 ≡ err e
        → let s = (recover P (round P first (tx, w)).1).1 in End (err e) s.0 s.1
    pub recovered :
        (first : Bool) (tx : Transaction P) (w : World)
        → Start first tx w
        → (round P first (tx, w)).0 ≡ ok (err conflict)
        → (recover P (round P first (tx, w)).1).0 ≡ ok tt
        → let s = (recover P (round P first (tx, w)).1).1 in Start false s.0 s.1

  pub is_conflict_lem : (e : Error Expression) → is_conflict P e ≡ true → e ≡ conflict
  is_conflict_lem conflict h = refl
  is_conflict_lem _ h = cc

  abbrev pub Outcome : Type 0
  Outcome = Result (Error Expression) (Result (Error Expression) String) × (Transaction P × World)

  module _ (End : Result (Error Expression) String → Transaction P → World → Type 0) where
    -- `End` of the result and the state of an action.
    abbrev pub Ends : Result (Error Expression) String × (Transaction P × World) → Type 0
    Ends (r, s) = End r s.0 s.1

    conclude_conflict :
        (again : TransactionExec P String) (e : Error Expression) (b : Bool) (tx : Transaction P)
        (w : World)
        → (b ≡ false → End (err e) tx w)
        → (b ≡ true → Ends (again (tx, w)))
        → Ends (elim b [ true ↦ again (tx, w) | false ↦ (err e, (tx, w)) ])
    conclude_conflict again e true tx w stop go = go refl
    conclude_conflict again e false tx w stop go = stop refl

    -- What follows a round, by its outcome.
    pub after_round :
        (again : TransactionExec P String) (x : Outcome)
        → ((e : Error Expression) → x.0 ≡ err e → End (err e) x.1.0 x.1.1)
        → ((id : String)
            → x.0 ≡ ok (ok id)
            → End (ok id) (record x.1.0 { snapshot_id = some id }) x.1.1)
        → ((e : Error Expression) → x.0 ≡ ok (err e) → End (err e) x.1.0 x.1.1)
        → (x.0 ≡ ok (err conflict) → Ends (again x.1))
        → Ends (((λ _. x) >>= conclude P again) x.1)
    unfolding conclude
    after_round again (err e, s) raised published refused again_ends = raised e refl
    after_round again (ok (ok id), s) raised published refused again_ends = published id refl
    after_round again (ok (err e), (tx, w)) raised published refused again_ends =
        conclude_conflict again e (is_conflict P e) tx w (λ _. refused e refl)
          (λ b. again_ends (ap (λ k. ok (err k)) (is_conflict_lem e b)))

    -- `_recover`, and the rest of the loop if it goes through.
    pub after_recover :
        (rest : TransactionExec P String)
        (x : Result (Error Expression) (Unit {0}) × (Transaction P × World))
        → ((e : Error Expression) → x.0 ≡ err e → End (err e) x.1.0 x.1.1)
        → (x.0 ≡ ok tt → Ends (rest x.1))
        → Ends (((λ _. x) >> rest) x.1)
    after_recover rest (err e, s) failed go = failed e refl
    after_recover rest (ok _, s) failed go = go refl

  module _ {Start : Bool → Transaction P → World → Type 0}
      {End : Result (Error Expression) String → Transaction P → World → Type 0}
      (rule : LoopRule Start End) where
    pub commit_rounds_rule :
        (retries : ℕ) (first : Bool) (tx : Transaction P) (w : World)
        → Start first tx w
        → let (r, s) = commit_rounds P retries first (tx, w) in End r s.0 s.1
    unfolding commit_rounds
    commit_rounds_rule zero first tx w h =
        after_round End (raise conflict) (round P first (tx, w)) (rule.raised first tx w h)
          (rule.published first tx w h) (rule.refused first tx w h)
          (rule.refused first tx w h conflict)
    commit_rounds_rule (suc n) first tx w h =
        let s = (round P first (tx, w)).1 in
        after_round End (recover P >> commit_rounds P n false) (round P first (tx, w))
          (rule.raised first tx w h) (rule.published first tx w h) (rule.refused first tx w h)
          (λ conflicted.
            after_recover End (commit_rounds P n false) (recover P s)
              (rule.not_recovered first tx w h conflicted)
              (λ done.
                commit_rounds_rule n false (recover P s).1.0 (recover P s).1.1
                  (rule.recovered first tx w h conflicted done)))
