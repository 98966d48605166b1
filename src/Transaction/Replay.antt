-- ===== src/Transaction/Replay.antt =====
-- A replay on the pointers of a tip that has moved on: the race between the read of the tip and
-- the rebase.
use icechest.Base.{String, ◌≡◌, ◌≢◌, ◌∙◌, sym, false, [], map, not, arith, contains_text}
use icechest.Base.Dict
use icechest.Base.Dict.{Dict, get-nil}
use icechest.Base.Exec.{ok}
use icechest.Catalog.{current_pointers, rebase_onto}
use icechest.Platform.{Platform}
use icechest.Platform.Laws.{Records}
use icechest.Pointer.{read_pointers, read_pointers_at_branch, commit_metadata}
use icechest.Transaction.State.{Transaction}
use icechest.Transaction.Commit.{apply_all, round, recover, rebase_session}
use icechest.Transaction.Atomic.{read_pointers_of_held}
use icechest.Transaction.Frame.{staged_name, round_sent}
use icechest.Transaction.InStep.{round_others}

module _ (P : Platform) where
  open P use {World, session_snapshot_id, has_uncommitted_changes, session_commit}

  -- What `_recover` makes of the transaction, if it goes through.
  recover_catalog :
      (tx : Transaction P) (w : World) {tips : Dict String}
      → read_pointers_at_branch P tx.branch w ≡ ok tips
      → (recover P (tx, w)).0 ≡ ok tt
      → ((recover P (tx, w)).1.0.catalog.pointers ≡ tips)
        × ((recover P (tx, w)).1.0.catalog.staged ≡ [])
        × ((recover P (tx, w)).1.0.intents ≡ tx.intents)
  unfolding recover rebase_session rebase_onto
  recover_catalog tx w read done = ground arith

  -- Where a commit of the repository keeps its metadata, a replay that publishes gives a table
  -- that no intent is about the pointer which the branch had when `_recover` read it. If the
  -- session was rebased onto a snapshot with another pointer there, the published snapshot has not
  -- that one.
  pub replay-loses_update :
      Records P
      → (tx : Transaction P) (w : World) {tips base : Dict String} (id j : String)
      → read_pointers_at_branch P tx.branch w ≡ ok tips
      → (recover P (tx, w)).0 ≡ ok tt
      → (round P false (recover P (tx, w)).1).0 ≡ ok (ok id)
      → contains_text (map (staged_name P) tx.intents) j ≡ false
      → read_pointers P
          (session_snapshot_id (recover P (tx, w)).1.0.session)
          (recover P (tx, w)).1.1
        ≡ ok base
      → Dict.get j base ≢ Dict.get j tips
      → (pointers : Dict String) × (read_pointers P id (round P false (recover P (tx, w)).1).1.1
          ≡ ok pointers)
        × (Dict.get j pointers ≡ Dict.get j tips)
        × (Dict.get j pointers ≢ Dict.get j base)
  replay-loses_update laws tx w {tips} {base} id j read done published other landed differs =
      let (tx', w') = (recover P (tx, w)).1 in
      let s = (apply_all P tx'.intents (tx'.catalog, w')).1 in
      let metadata = commit_metadata (current_pointers s.0) in
      let empty = not (has_uncommitted_changes tx'.session) in
      let sent = session_commit tx'.message metadata empty tx'.session s.1 in
      let facts = round_sent P false (ok id) tx' w' published in
      let held =
        laws.committed tx'.message metadata empty tx'.session sent.1 id s.1 sent.2
          (ground (arith, facts)) in
      let state = recover_catalog tx w read done in
      let kept : Dict.get j (current_pointers s.0) ≡ Dict.get j tips = ground (
        arith,
        state,
        round_others P tx' w' j (ground (arith, state, get-nil {V = String} j))
            (rw (state.2) other),
      ) in
      (
        current_pointers s.0,
        ground (arith, facts, read_pointers_of_held P id sent.2 (current_pointers s.0) held),
        kept,
        λ same. differs (sym same ∙ kept),
      )
