-- ===== src/Tests/SettlingTests.antt =====
-- A transaction that appends to a table, on a branch where two others commit before it.
use icechest.Base.{
  ℕ, zero, suc, String, ◌≡◌, refl, true, false, none, some, List, [], ◌∷◌, arith, inl, inr, ◌⊎◌,
  length, leb, rstrip_slash, Option-cases,
}
use icechest.Base.Dict
use icechest.Base.Dict.{Dict, get-insert, get-nil}
use icechest.Base.Exec.{Result, ok, err}
use icechest.Catalog.{
  load_table, resolve, read_in, commit_table, base_metadata, validate_requirements, write_and_stage,
  new_catalog,
}
use icechest.Catalog.Resolution.{get-current_pointers}
use icechest.Errors.{Error, conflict}
use icechest.Intent.{
  TableIntent, append_rows, apply, load_and_change, change_loaded, change_table, finish_change,
}
use icechest.Platform.{Platform}
use icechest.Pointer.{commit_metadata, read_pointers_at_branch, read_pointers}
use icechest.Tests.Memory.{memory, Disk, Handle}
use icechest.Tests.CatalogTests.{seeded}
use icechest.Tests.TransactionTests.{begun}
use icechest.Transaction.{Transaction, apply_all, commit, catalog_for}
use icechest.Transaction.Settling.{Settles, IsAdditive, adds}
use icechest.Transaction.Settling.Turns.{commit-settles}

abbrev location : String
location = "w/g/metadata/0.json"

-- A commit conflicts as long as others are pending, of which it lets one land.
abbrev attempt_commit : Handle → Disk → Result (Error ℕ) String × Handle × Disk
attempt_commit session d = elim d.pending [
  | [] ↦ (ok "landed", session, d)
  | first ∷ rest ↦ (err conflict, session, record d { pending = rest })
]

-- The others keep the table `g` where it is.
abbrev busy : Platform
busy = record (memory false) {
  session_commit = λ message metadata allow_empty session d. attempt_commit session d;
  session_rebase = λ session d. (ok tt, session, d);
  lookup_snapshot = λ id d. ok (some (commit_metadata (("g", location) ∷ [])));
}

abbrev Takes : Dict String → Disk → Type 0
Takes pointers d = (Dict.get "g" pointers ≡ some location) × (Dict.contains location d.files ≡ true)

abbrev Pending : ℕ → Handle → Disk → Type 0
Pending n session d = (leb (length d.pending) n ≡ true) × (Dict.contains location d.files ≡ true)

attempt-settles :
    (n : ℕ) (pending : List (Dict String)) (session : Handle) (d : Disk)
    → d.pending ≡ pending
    → Pending n session d
    → let sent = attempt_commit session d in
      ((id : String) × (sent.0 ≡ ok id))
      ⊎ ((m : ℕ) × (n ≡ suc m) × (sent.0 ≡ err conflict) × Pending m sent.1 sent.2)
attempt-settles n [] session d same h = inl ("landed", ground arith)
attempt-settles zero (first ∷ rest) session d same h = absurd (ground arith)
attempt-settles (suc m) (first ∷ rest) session d same h =
    inr (m, refl, ground arith, (ground arith, ground arith))

busy-Settles : Settles busy "main" Takes Pending Pending
unfolding read_pointers_at_branch read_pointers commit_metadata Dict.get
busy-Settles = record {
  quiet = λ n session. record {
    at_new_table_metadata = λ schema spec order location properties d h. h;
    at_uuid4 = λ d h. h;
    at_write_metadata =
        λ io metadata other d h. (h.0, ground (arith, get-insert location other metadata d.files));
    at_append = λ io metadata rows d h. h;
    at_delete = λ io metadata predicate d h. h;
    at_overwrite = λ io metadata rows predicate d h. h;
  };
  at_commit = λ n message metadata session d h. attempt-settles n d.pending session d refl h;
  at_rebase = λ n session d h. (refl, h, (("g", location) ∷ [], refl, (refl, h.1)));
}

abbrev plan : List (TableIntent busy)
plan = append_rows "g" (3 ∷ []) ∷ []

append-applies :
    (pointers : Dict String) (d : Disk)
    → Takes pointers d
    → (apply_all busy plan (catalog_for begun.repo pointers false, d)).0 ≡ ok tt
unfolding apply_all apply load_and_change change_loaded change_table finish_change load_table
    resolve read_in commit_table base_metadata validate_requirements write_and_stage catalog_for
    new_catalog rstrip_slash
append-applies pointers d (there, held) = elim (Option-cases (Dict.get location d.files)) [
  | inl missing ↦ absurd (ground arith)
  | inr (metadata, read) ↦ ground (
    arith,
    get-current_pointers "g" (catalog_for begun.repo pointers false),
    get-nil {V = String} "g",
  )
]

plan-IsAdditive : IsAdditive busy begun.repo plan Takes
unfolding adds
plan-IsAdditive = record { only_adds = refl; plain = refl; applies = append-applies }

abbrev appending : Transaction busy
appending = record {
  repo = begun.repo;
  branch = "main";
  message = "append";
  max_retries = 3;
  intents = plan;
  base_snapshots = [];
  unmanaged_staged = [];
  session = record { branch = "main"; at = "root"; dirty = true; attributes = [] };
  catalog = begun.catalog;
  snapshot_id = none;
}

abbrev crowded : Disk
crowded = record seeded { pending = [] ∷ [] ∷ [] }

commit-settles_example : (id : String) × ((commit busy (appending, crowded)).0 ≡ ok id)
unfolding catalog_for new_catalog rstrip_slash Dict.get
commit-settles_example =
    commit-settles busy plan-IsAdditive busy-Settles 2 appending crowded (omega arith) refl refl
      refl (refl, refl) refl (refl, refl)
