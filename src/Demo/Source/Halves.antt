-- ===== src/Demo/Source/Halves.antt =====
-- The filter in two halves: one for the scan, one for the rows that it gives.
use icechest.Base.{
  ℕ, String, ◌≡◌, refl, Bool, true, false, ◌&&◌, List, [], ◌∷◌, if◌then◌else◌, arith, inl, inr, all,
  length, leb, ◌∙◌,
}
use icechest.Base.Exec.{ok, Result-cases}
use icechest.Demo.Source.{
  Archive, Selection, conjunction, selection_terms, granule_filter, drop_null_proj_transform,
  select_granules,
}

module _ (A : Archive) where
  open A use {Expression, Table, Row, at_least_text, not_null, both, scan, is_valid}

  -- Rows under a filter, as PyIceberg and PyArrow read it: a conjunction holds where both sides
  -- do, and a column is not null where PyArrow says that it is valid; and a scan gives no rows but
  -- those of its filter, up to its limit.
  pub record Filters (holds : Expression → Row → Bool) : Type 0 where
    pub of_both :
        (p q : Expression) (row : Row) → holds (both p q) row ≡ (holds p row && holds q row)
    pub of_not_null :
        (column : String) (row : Row) → holds (not_null column) row ≡ is_valid column row
    pub scanned :
        (table : Table) (p : Expression) (limit : ℕ) {rows : List Row}
        → scan table p limit ≡ ok rows
        → (all (holds p) rows ≡ true) × (leb (length rows) limit ≡ true)

  -- The rows that a filter holds of.
  unfoldable pub kept : (Row → Bool) → List Row → List Row
  kept holds [] = []
  kept holds (row ∷ rows) = let rest = kept holds rows in if holds row then row ∷ rest else rest

  module _ {holds : Expression → Row → Bool} (law : Filters holds) where
    holds-conjunction :
        (p : Expression) (terms : List Expression) (row : Row)
        → holds (conjunction A p terms) row ≡ (holds p row && all (λ t. holds t row) terms)
    unfolding conjunction
    holds-conjunction p [] row = ground arith
    holds-conjunction p (t ∷ terms) row =
        holds-conjunction (both p t) terms row ∙ ground (arith, law.of_both p t row)

    -- The whole filter is the scan's and the test of the column.
    holds-granule_filter :
        (s : Selection A) (floor : String) (row : Row)
        → holds (granule_filter A s true floor) row
          ≡ (holds (granule_filter A s false floor) row && is_valid "proj:transform" row)
    unfolding granule_filter
    holds-granule_filter s floor row =
        let first = at_least_text "datetime" floor in
        let column = not_null "proj:transform" in
        ground (
          arith,
          holds-conjunction first (column ∷ selection_terms A s) row,
          holds-conjunction first (selection_terms A s) row,
          law.of_not_null "proj:transform" row,
        )

    holds-floor :
        (s : Selection A) (floor : String) (row : Row)
        → holds (granule_filter A s true floor) row ≡ true
        → holds (at_least_text "datetime" floor) row ≡ true
    unfolding granule_filter
    holds-floor s floor row h =
        let first = at_least_text "datetime" floor in
        ground
          (arith, holds-conjunction first (not_null "proj:transform" ∷ selection_terms A s) row)

    drop_null-kept :
        (s : Selection A) (floor : String) (rows : List Row)
        → all (holds (granule_filter A s false floor)) rows ≡ true
        → drop_null_proj_transform A rows ≡ kept (holds (granule_filter A s true floor)) rows
    unfolding drop_null_proj_transform kept
    drop_null-kept s floor [] h = refl
    drop_null-kept s floor (row ∷ rows) h =
        ground (arith, holds-granule_filter s floor row, drop_null-kept s floor rows)

    pub all-kept : (p : Row → Bool) (rows : List Row) → all p (kept p rows) ≡ true
    unfolding kept
    all-kept p [] = refl
    all-kept p (row ∷ rows) = ground (arith, all-kept p rows)

    length-kept :
        (p : Row → Bool) (rows : List Row) → leb (length (kept p rows)) (length rows) ≡ true
    unfolding kept
    length-kept p [] = ground arith
    length-kept p (row ∷ rows) = ground (arith, length-kept p rows)

    all-weaken :
        (p q : Row → Bool) (rows : List Row)
        → ((row : Row) → p row ≡ true → q row ≡ true)
        → all p rows ≡ true
        → all q rows ≡ true
    all-weaken p q [] weaker h = refl
    all-weaken p q (row ∷ rows) weaker h = ground (arith, weaker row, all-weaken p q rows weaker)

    -- Where filters are read as PyIceberg and PyArrow read them, and a scan gives rows of its filter
    -- up to its limit, a selection that returns has of the scanned rows exactly those which the whole
    -- filter holds of, the test of `proj:transform` included, in their order, although the scan was
    -- given the filter without that test; all of them are at or past the floor, and no more than the
    -- limit.
    pub select_granules-kept :
        (table : Table) (s : Selection A) (limit : ℕ) (floor : String) {found : List Row}
        → select_granules A table s limit floor ≡ ok found
        → ((rows : List Row) × (scan table (granule_filter A s false floor) limit ≡ ok rows)
            × (found ≡ kept (holds (granule_filter A s true floor)) rows))
          × (all (holds (at_least_text "datetime" floor)) found ≡ true)
          × (leb (length found) limit ≡ true)
    unfolding select_granules
    select_granules-kept table s limit floor {found} h =
        let full = holds (granule_filter A s true floor) in
        elim (Result-cases (scan table (granule_filter A s false floor) limit)) [
          | inl (rows, done) ↦
              let (of_filter, few) =
                law.scanned table (granule_filter A s false floor) limit done in
              let same : found ≡ kept full rows =
                ground (arith, drop_null-kept s floor rows of_filter) in
              (
                (rows, done, same),
                rw same (
                    all-weaken full (holds (at_least_text "datetime" floor)) (kept full rows)
                      (holds-floor s floor) (all-kept full rows)),
                rw same (ground (arith, length-kept full rows)),
              )
          | inr (e, failed) ↦ absurd (ground arith)
        ]
