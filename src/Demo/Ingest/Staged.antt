-- ===== src/Demo/Ingest/Staged.antt =====
-- What the loop of `ingest_batch` leaves staged.
use icechest.Base.{
  String, ◌≡◌, refl, true, false, none, List, [], ◌∷◌, arith, is_some, contains_text, ◌==◌, eq_iff,
  eq_refl, any-append, all, is_segment, inl, inr, Bool-cases,
}
use icechest.Base.Exec.{ok, Result-cases}
use icechest.Demo.Ingest.{
  GranuleStore, Batch, granule_exists, skip, clean_up, write_one, stage_granule, stage_rows,
  empty_batch,
}

module _ (G : GranuleStore) where
  open G use {Row, Store, Node, row_id, node, writer, delete_dir}

  -- Where ids are single segments of a path: writes and deletions of a granule concern its own node,
  -- a write that returns leaves a node, a deletion that returns leaves none.
  pub record OwnNode : Type 0 where
    pub write_others :
        (row : Row) (j : String) (s : Store)
        → is_segment (row_id row) ≡ true
        → is_segment j ≡ true
        → (row_id row == j) ≡ false
        → node j (writer row s).1 ≡ node j s
    pub written :
        (row : Row) (path : String) (s : Store)
        → is_segment (row_id row) ≡ true
        → (writer row s).0 ≡ ok path
        → is_some (node (row_id row) (writer row s).1) ≡ true
    pub delete_others :
        (id j : String) (s : Store)
        → is_segment id ≡ true
        → is_segment j ≡ true
        → (id == j) ≡ false
        → node j (delete_dir id s).1 ≡ node j s
    pub deleted :
        (id : String) (s : Store)
        → is_segment id ≡ true
        → (delete_dir id s).0 ≡ ok tt
        → node id (delete_dir id s).1 ≡ none

  module _ (laws : OwnNode) where
    stage_granule-others :
        (row : Row) (j : String) (b : Batch G)
        → is_segment (row_id row) ≡ true
        → is_segment j ≡ true
        → (row_id row == j) ≡ false
        → node j (stage_granule G row b).store ≡ node j b.store
    unfolding stage_granule write_one clean_up skip granule_exists
    stage_granule-others row j b segment segment_j differ = ground (
      arith,
      laws.write_others row j b.store,
      laws.delete_others (row_id row) j (writer row b.store).1,
    )

    stage_granule-existing :
        (row : Row) (j : String) (b : Batch G)
        → is_segment (row_id row) ≡ true
        → is_segment j ≡ true
        → is_some (node j b.store) ≡ true
        → node j (stage_granule G row b).store ≡ node j b.store
    unfolding stage_granule skip granule_exists
    stage_granule-existing row j b segment segment_j there = elim (Bool-cases (row_id row == j)) [
      | inl same ↦ ground (arith, eq_iff (row_id row) j)
      | inr differ ↦ stage_granule-others row j b segment segment_j differ
    ]

    -- Where writes and deletions concern the granule's own node alone, and ids are single segments
    -- of a path, a granule that is in the store before the loop is in it afterwards as it was,
    -- whatever the batch holds and whatever fails.
    pub stage_rows-existing :
        (rows : List Row) (j : String) (b : Batch G)
        → all (λ row. is_segment (row_id row)) rows ≡ true
        → is_segment j ≡ true
        → is_some (node j b.store) ≡ true
        → node j (stage_rows G rows b).store ≡ node j b.store
    unfolding stage_rows
    stage_rows-existing [] j b segments segment_j there = refl
    stage_rows-existing (row ∷ rows) j b segments segment_j there =
        ground (
          arith,
          stage_granule-existing row j b,
          stage_rows-existing rows j (stage_granule G row b),
        )

    -- A granule has arrays exactly if it is among the committed ones.
    abbrev Matches : String → Batch G → Type 0
    Matches j b = is_some (node j b.store) ≡ contains_text b.committed j

    write_one-own :
        ((id : String) (s : Store) → (delete_dir id s).0 ≡ ok tt)
        → (row : Row) (b : Batch G) → is_segment (row_id row) ≡ true
        → contains_text b.committed (row_id row) ≡ false
        → Matches (row_id row) (write_one G row b)
    unfolding write_one clean_up skip granule_exists
    write_one-own cleans row b segment fresh =
        let s = (writer row b.store).1 in
        elim (Result-cases (writer row b.store).0) [
          | inl (path, done) ↦ ground (
            arith,
            eq_refl (row_id row),
            any-append (λ n. n == row_id row) b.committed (row_id row ∷ []),
            laws.written row path b.store segment done,
          )
          | inr (e, failed) ↦
              ground (arith, laws.deleted (row_id row) s segment (cleans (row_id row) s))
        ]

    write_one-Matches :
        ((id : String) (s : Store) → (delete_dir id s).0 ≡ ok tt)
        → (row : Row) (j : String) (b : Batch G) → is_segment (row_id row) ≡ true
        → is_segment j ≡ true
        → contains_text b.committed (row_id row) ≡ false
        → Matches j b
        → Matches j (write_one G row b)
    unfolding write_one clean_up skip granule_exists
    write_one-Matches cleans row j b segment segment_j fresh h =
        elim (Bool-cases (row_id row == j)) [
          | inl same ↦
              let at : row_id row ≡ j = ground (arith, eq_iff (row_id row) j) in
              rw (← at) (write_one-own cleans row b segment fresh)
          | inr differ ↦ ground (
            arith,
            any-append (λ n. n == j) b.committed (row_id row ∷ []),
            laws.write_others row j b.store,
            laws.delete_others (row_id row) j (writer row b.store).1,
          )
        ]

    stage_granule-Matches :
        ((id : String) (s : Store) → (delete_dir id s).0 ≡ ok tt)
        → (row : Row) (j : String) (b : Batch G) → is_segment (row_id row) ≡ true
        → is_segment j ≡ true
        → Matches j b
        → Matches j (stage_granule G row b)
    unfolding stage_granule skip granule_exists
    stage_granule-Matches cleans row j b segment segment_j h =
        elim (Bool-cases (contains_text b.committed (row_id row))) [
          | inl staged ↦ ground arith
          | inr fresh ↦ elim (Bool-cases (is_some (node (row_id row) b.store))) [
            | inl there ↦ ground arith
            | inr absent ↦
                ground (arith, write_one-Matches cleans row j b segment segment_j fresh h)
          ]
        ]

    stage_rows-Matches :
        ((id : String) (s : Store) → (delete_dir id s).0 ≡ ok tt)
        → (rows : List Row) (j : String) (b : Batch G)
        → all (λ row. is_segment (row_id row)) rows ≡ true
        → is_segment j ≡ true
        → Matches j b
        → Matches j (stage_rows G rows b)
    unfolding stage_rows
    stage_rows-Matches cleans [] j b segments segment_j h = h
    stage_rows-Matches cleans (row ∷ rows) j b segments segment_j h =
        stage_rows-Matches cleans rows j (stage_granule G row b) (ground arith) segment_j
          (stage_granule-Matches cleans row j b (ground arith) segment_j h)

    -- Where writes and deletions concern the granule's own node alone, a write that returns leaves
    -- one, every clean-up goes through and leaves none, and ids are single segments of a path, a
    -- granule that was not in the store has a node after the loop exactly if it is among the
    -- committed ones.
    pub stage_rows-arrays :
        ((id : String) (s : Store) → (delete_dir id s).0 ≡ ok tt)
        → (rows : List Row) (j : String) (store : Store)
        → all (λ row. is_segment (row_id row)) rows ≡ true
        → is_segment j ≡ true
        → node j store ≡ none
        → let b = stage_rows G rows (empty_batch G store) in
          is_some (node j b.store) ≡ contains_text b.committed j
    stage_rows-arrays cleans rows j store segments segment_j absent =
        stage_rows-Matches cleans rows j (empty_batch G store) segments segment_j (rw absent refl)
