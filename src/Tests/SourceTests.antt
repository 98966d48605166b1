-- ===== src/Tests/SourceTests.antt =====
-- An archive of three records, one of them early and one without a transform.
use Prim.Native.Nat.{lt}
use Prim.Native.String.{compare}
use icechest.Base.{
  if◌then◌else◌, ℕ, zero, suc, String, ◌≡◌, refl, Bool, true, false, not, ◌&&◌, none, List, [], ◌∷◌,
  arith, all, length, leb,
}
use icechest.Base.Exec.{ok, err}
use icechest.Demo.Source.{
  Archive, Selection, granule_filter, select_granules, conjunction, selection_terms,
  drop_null_proj_transform, datetime_floor,
}
use icechest.Demo.Source.Halves.{Filters, kept, select_granules-kept}

-- A row is its time, and whether its transform is there.
abbrev Record : Type 0
Record = String × Bool

abbrev before : String → String → Bool
before a b = elim (compare a b) [ lt ↦ true | _ ↦ false ]

-- The first rows of a filter, up to a limit.
first_of : ℕ → (Record → Bool) → List Record → List Record
first_of zero p rows = []
first_of (suc n) p [] = []
first_of (suc n) p (row ∷ rows) =
    let taken = first_of n p rows in
    let passed = first_of (suc n) p rows in if p row then row ∷ taken else passed

first_of-scanned :
    (n : ℕ) (p : Record → Bool) (rows : List Record)
    → (all p (first_of n p rows) ≡ true) × (leb (length (first_of n p rows)) n ≡ true)
unfolding first_of
first_of-scanned zero p rows = (refl, refl)
first_of-scanned (suc n) p [] = (refl, ground arith)
first_of-scanned (suc n) p (row ∷ rows) =
    let taken = first_of-scanned n p rows in
    let passed = first_of-scanned (suc n) p rows in
    (ground (arith, taken.0, passed.0), ground (arith, taken.1, passed.1))

abbrev archive : Archive
archive = record {
  Expression = Record → Bool;
  Float = ℕ;
  Table = List Record;
  Row = Record;
  at_least_text = λ column value row. not (before row.0 value);
  less_than_text = λ column value row. before row.0 value;
  at_least = λ column value row. true;
  at_most = λ column value row. true;
  not_null = λ column row. row.1;
  starts_with = λ column value row. true;
  both = λ p q row. p row && q row;
  from_metadata = λ url properties. err "no network";
  scan = λ table p limit. ok (first_of limit p table);
  is_valid = λ column row. row.1;
}

archive-Filters : Filters archive (λ p row. p row)
archive-Filters = record {
  of_both = λ p q row. refl;
  of_not_null = λ column row. refl;
  scanned = λ table p limit {rows} done.
      let h = first_of-scanned limit p table in
      let same : first_of limit p table ≡ rows = ground arith in rw (← same) h;
}

abbrev records : List Record
records =
    ("2025-12-31T00:00:00+00:00", true)
    ∷ ("2026-02-01T00:00:00+00:00", false)
    ∷ ("2026-03-01T00:00:00+00:00", true)
    ∷ []

abbrev anything : Selection archive
anything = record { bbox = none; tile = none; datetime = none }

abbrev found : List Record
found = ("2026-03-01T00:00:00+00:00", true) ∷ []

select_granules-kept_example :
    ((rows : List Record) × (archive.scan records
          (granule_filter archive anything false datetime_floor)
          2
        ≡ ok rows)
      × (found ≡ kept archive (granule_filter archive anything true datetime_floor) rows))
    × (all (archive.at_least_text "datetime" datetime_floor) found ≡ true)
    × (leb (length found) 2 ≡ true)
unfolding select_granules granule_filter conjunction selection_terms drop_null_proj_transform
    first_of
select_granules-kept_example =
    select_granules-kept archive archive-Filters records anything 2 datetime_floor {found = found}
      refl
