-- ===== src/Tests/IngestTests.antt =====
-- A batch with a granule that is in the store, one that comes twice, and one that cannot be read.
use icechest.Base.{
  String, ◌≡◌, refl, Bool, true, false, Option, none, some, List, [], ◌∷◌, arith, is_some,
  contains_text, ◌==◌, eq_refl, if◌then◌else◌,
}
use icechest.Base.Dict
use icechest.Base.Exec.{ok, err}
use icechest.Demo.Ingest.{
  GranuleStore, Batch, empty_batch, stage_rows, stage_granule, write_one, clean_up, granule_exists,
  record_skip,
}
use icechest.Demo.Ingest.Staged.{OwnNode, stage_rows-existing, stage_rows-arrays}

abbrev Nodes : Type 0
Nodes = String → Option String

abbrev set : String → Option String → Nodes → Nodes
set id node s j = if id == j then node else s j

-- A row is an id, and whether its files can be read. A write that fails has written a part.
abbrev granules : GranuleStore
granules = record {
  Row = String × Bool;
  Store = Nodes;
  Node = String;
  row_id = λ row. row.0;
  node = λ j s. s j;
  writer = λ row s.
      if row.1
      then (ok row.0, set row.0 (some "arrays") s)
      else (err "unreadable", set row.0 (some "part") s);
  delete_dir = λ id s. (ok tt, set id none s);
}

granules-OwnNode : OwnNode granules
granules-OwnNode = record {
  write_others = λ row j s segment segment_j differ. ground arith;
  written = λ row path s segment done. ground (arith, eq_refl row.0);
  delete_others = λ id j s segment segment_j differ. ground arith;
  deleted = λ id s segment done. ground (arith, eq_refl id);
}

abbrev before : Nodes
before = set "old" (some "published") (λ _. none)

abbrev rows : List (String × Bool)
rows = ("a", true) ∷ ("old", true) ∷ ("bad", false) ∷ ("a", true) ∷ []

staged : Batch granules
unfolding stage_rows stage_granule write_one clean_up granule_exists record_skip Dict.insert
    Dict.get
staged = stage_rows granules rows (empty_batch granules before)

stage_rows-existing_example : staged.store "old" ≡ some "published"
unfolding staged
stage_rows-existing_example =
    stage_rows-existing granules granules-OwnNode rows "old" (empty_batch granules before) refl refl
      refl

stage_rows-arrays_example : is_some (staged.store "bad") ≡ contains_text staged.committed "bad"
unfolding staged
stage_rows-arrays_example =
    stage_rows-arrays granules granules-OwnNode (λ id s. refl) rows "bad" before refl refl refl

committed_rows : staged.committed ≡ "a" ∷ []
unfolding staged
committed_rows = refl
