-- ===== src/Tests/Memory.antt =====
-- A platform in memory: tables hold numbers, a repository has one history, and other writers
-- commit from a list of pending commits, one before each commit of ours and, on a racy platform,
-- one within each rebase.
use icechest.Base.{
  ℕ, suc, String, ◌<>◌, Bool, true, false, not, ◌&&◌, Option, none, some, List, [], ◌∷◌, ◌++◌,
  if◌then◌else◌, ◌==◌, nat_eq, leb, any, length, decimal,
}
use icechest.Base.Dict
use icechest.Base.Dict.{Dict}
use icechest.Base.Exec.{Result, ok, err}
use icechest.Errors.{Error, Predicate, text, expression, conflict, external}
use icechest.Formats.{Attributes, CommitMetadata}
use icechest.Platform.{Platform}
use icechest.Pointer.{commit_metadata}

-- How often a number stands in a list.
abbrev pub occurrences : ℕ → List ℕ → ℕ
occurrences n [] = 0
occurrences n (x ∷ xs) = if nat_eq x n then suc (occurrences n xs) else occurrences n xs

-- A table version: its rows, and the rows that each snapshot added, the newest first.
pub record Meta : Type 0 where
  pub rows : List ℕ
  pub history : List (ℕ × List ℕ)
  pub log : ℕ

pub data Change : Type 0 where
  add : List ℕ → Change
  remove : ℕ → Change

pub record Disk : Type 0 where
  pub files : Dict Meta
  pub tokens : ℕ
  pub snapshots : Dict (CommitMetadata × String)
  pub tip : String
  pub pending : List (Dict String)
  pub commits : ℕ

pub record Handle : Type 0 where
  pub branch : String
  pub at : String
  pub dirty : Bool
  pub attributes : Attributes

abbrev pub E : Type 0
E = Error ℕ

abbrev without : ℕ → List ℕ → List ℕ
without n [] = []
without n (x ∷ xs) = if nat_eq x n then without n xs else x ∷ without n xs

abbrev next_id : Meta → ℕ
next_id m = suc (length m.history)

abbrev change : Meta → Change → Meta
change m (add rows) = record {
  rows = m.rows ++ rows;
  history = (next_id m, rows) ∷ m.history;
  log = suc m.log;
}
change m (remove n) = record {
  rows = without n m.rows;
  history = (next_id m, []) ∷ m.history;
  log = suc m.log;
}

abbrev change_all : Meta → List Change → Meta
change_all m [] = m
change_all m (c ∷ cs) = change_all (change m c) cs

abbrev newest : List (ℕ × List ℕ) → Option ℕ
newest [] = none
newest ((id, _) ∷ _) = some id

abbrev known : ℕ → List (ℕ × List ℕ) → Option ℕ
known id [] = none
known id ((i, _) ∷ rest) = if nat_eq i id then some id else known id rest

-- The additions of matching rows by the snapshots from `base` to `tip`.
abbrev added : ℕ → ℕ → ℕ → List (ℕ × List ℕ) → List (Option ℕ)
added tip filter base [] = []
added tip filter base ((i, rows) ∷ rest) =
    if (leb base i && leb i tip) && any (λ r. nat_eq r filter) rows
    then some i ∷ added tip filter base rest
    else added tip filter base rest

abbrev matched : Predicate ℕ → ℕ
matched (text s) = 0
matched (expression n) = n

abbrev read_file : Dict Meta → String → Result E Meta
read_file files location = elim (Dict.get location files) [
  | none ↦ err (external "no such file")
  | some m ↦ ok m
]

abbrev pub snapshot_name : Disk → String
snapshot_name d = "snapshot-" <> decimal (length d.snapshots)

-- A commit on top of the tip, unless its name is taken.
unfoldable pub land : CommitMetadata → Disk → Disk
land metadata d =
    let name = snapshot_name d in
    if Dict.contains name d.snapshots
    then d
    else record d { snapshots = Dict.insert name (metadata, d.tip) d.snapshots; tip = name }

-- The next pending commit of another writer lands.
unfoldable pub rival : Disk → Disk
rival d = elim d.pending [
  | [] ↦ d
  | pointers ∷ rest ↦ land (commit_metadata pointers) (record d { pending = rest })
]

unfoldable pub try_commit : CommitMetadata → Bool → Handle → Disk → Result E String × Handle × Disk
try_commit metadata allow_empty session d =
    if not (session.at == d.tip)
    then (err conflict, session, d)
    else if not session.dirty && not allow_empty
    then (err (external "empty commit"), session, d)
    else if Dict.contains (snapshot_name d) d.snapshots
    then (err (external "name taken"), session, d)
    else (
      ok (snapshot_name d),
      record session { at = snapshot_name d; dirty = false },
      record d {
        snapshots = Dict.insert (snapshot_name d) (metadata, session.at) d.snapshots;
        tip = snapshot_name d;
      },
    )

unfoldable pub commit_on_disk :
    CommitMetadata → Bool → Handle → Disk → Result E String × Handle × Disk
unfolding try_commit
commit_on_disk metadata allow_empty session d =
    try_commit metadata allow_empty session (rival (record d { commits = suc d.commits }))

abbrev pub memory : Bool → Platform
memory racy = record {
  World = Disk;
  FileIO = Unit {0};
  RawSchema = Unit {0};
  Schema = Unit {0};
  PartitionSpec = Unit {0};
  SortOrder = Unit {0};
  Rows = List ℕ;
  Metadata = Meta;
  Requirement = ℕ;
  TableUpdate = Change;
  Snapshot = ℕ;
  Expression = ℕ;
  load_file_io = λ _. tt;
  table_name_from = λ name. name;
  convert_schema = λ schema. ok schema;
  new_table_metadata = λ _ _ _ _ _ d. (record { rows = []; history = []; log = 0 }, d);
  uuid4 = λ d. (decimal d.tokens, record d { tokens = suc d.tokens });
  write_metadata = λ _ m location d. (ok tt, record d { files = Dict.insert location m d.files });
  read_metadata = λ _ location d. read_file d.files location;
  validate_requirement =
      λ log m. if nat_eq log m.log then ok tt else err (external "requirement failed");
  update_table_metadata = λ m changes _. ok (change_all m changes);
  metadata_log_length = λ m. m.log;
  current_snapshot_id = λ m. newest m.history;
  snapshot_by_id = λ m id. known id m.history;
  append_changes = λ _ m rows d. (ok (some (m.log ∷ [], add rows ∷ [])), d);
  delete_changes = λ _ m predicate d. (
    ok (
        if any (λ r. nat_eq r (matched predicate)) m.rows
        then some (m.log ∷ [], remove (matched predicate) ∷ [])
        else none),
    d,
  );
  overwrite_changes = λ _ m rows predicate d.
      (ok (some (m.log ∷ [], remove (matched predicate) ∷ add rows ∷ [])), d);
  parse = λ _. err (external "not parsed");
  added_data_files = λ _ m tip filter base _. ok (added tip filter base m.history);
  Session = Handle;
  writable_session =
      λ branch d. ok (record { branch = branch; at = d.tip; dirty = false; attributes = [] });
  readonly_session = λ id d. ok (record { branch = ""; at = id; dirty = false; attributes = [] });
  session_branch = λ s. s.branch;
  session_snapshot_id = λ s. s.at;
  has_uncommitted_changes = λ s. s.dirty;
  discard_changes = λ s. record s { dirty = false };
  session_commit = λ _ metadata allow_empty s d. commit_on_disk metadata allow_empty s d;
  session_rebase =
      λ s d. let d' = if racy then rival d else d in (ok tt, record s { at = d'.tip }, d');
  lookup_snapshot = λ id d. elim (Dict.get id d.snapshots) [
    | none ↦ err (external "no such snapshot")
    | some (metadata, _) ↦ ok (some metadata)
  ];
  lookup_branch = λ _ d. ok d.tip;
  lookup_tag = λ _ d. ok d.tip;
  open_group = λ s. ok s;
  group_attributes = λ s. ok s.attributes;
  update_attributes =
      λ updated s. ok (record s { attributes = Dict.update s.attributes updated; dirty = true });
}

-- The snapshot that a snapshot was committed onto.
abbrev pub parent_on_disk : String → Disk → Option String
parent_on_disk id d = elim (Dict.get id d.snapshots) [ none ↦ none | some (_, onto) ↦ some onto ]

-- The platform on which nobody lands during a rebase, with storage that keeps a file once it is
-- there.
abbrev pub keeping : Platform
keeping = record (memory false) {
  write_metadata = λ _ m location d.
      if Dict.contains location d.files
      then (err (external "file exists"), d)
      else (ok tt, record d { files = Dict.insert location m d.files });
}

-- The same without other writers than those that the model names.
abbrev pub closed : Platform
closed = record keeping {
  session_commit = λ _ metadata allow_empty s d. try_commit metadata allow_empty s d;
}
