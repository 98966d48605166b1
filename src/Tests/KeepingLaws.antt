-- ===== src/Tests/KeepingLaws.antt =====
-- The platform in memory whose storage keeps its files meets what the theorems assume.
use icechest.Base.{
  inl, inr, Bool-cases, ℕ, suc, ◌+◌, String, ◌≡◌, true, List, [], ◌∷◌, ◌++◌, arith, eq_iff, eq_refl,
}
use icechest.Base.Dict
use icechest.Base.Dict.{Dict, get-insert}
use icechest.Base.Exec.{ok}
use icechest.Platform.Laws.{ReadsBack, IsQuiet, IsHistory, IsUndisturbed, KeepsFiles, IsCount}
use icechest.Tests.MemoryLaws.{memory-IsHistory, memory-IsUndisturbed}
use icechest.Tests.Memory.{
  memory, keeping, occurrences, Meta, Disk, land, rival, commit_on_disk, parent_on_disk,
}

occurrences-append :
    (n : ℕ) (xs ys : List ℕ) → occurrences n (xs ++ ys) ≡ occurrences n xs + occurrences n ys
occurrences-append n [] ys = omega arith
occurrences-append n (x ∷ xs) ys = ground (arith, occurrences-append n xs ys)

pub keeping-IsCount : (n : ℕ) → IsCount keeping (λ (m : Meta). occurrences n m.rows) (occurrences n)
keeping-IsCount n = record {
  appended = λ io before after rows d d' requirements updates location called updated.
      ground (arith, occurrences-append n before.rows rows);
  nothing = λ io before rows d d' called. ground arith;
}

-- The files of a disk stay.
abbrev HasFile : String → Meta → Disk → Type 0
HasFile location m d = (memory true).read_metadata tt location d ≡ ok m

pub keeping-IsQuiet :
    {Holds : Disk → Type 0}
    → ((d : Disk) (files : Dict Meta) (tokens : ℕ)
        → Holds d
        → Holds (record d { files = files; tokens = tokens }))
    → IsQuiet keeping Holds
keeping-IsQuiet kept = record {
  at_new_table_metadata = λ schema spec order location properties d h. h;
  at_uuid4 = λ d h. kept d d.files (suc d.tokens) h;
  at_write_metadata = λ io m location d h. elim (Bool-cases (Dict.contains location d.files)) [
    | inl there ↦ rw there h
    | inr absent ↦ rw absent (kept d (Dict.insert location m d.files) d.tokens h)
  ];
  at_append = λ io m rows d h. h;
  at_delete = λ io m predicate d h. h;
  at_overwrite = λ io m rows predicate d h. h;
}

pub keeping-IsHistory : IsHistory keeping parent_on_disk
keeping-IsHistory = record {
  committed = memory-IsHistory.committed;
  refused = memory-IsHistory.refused;
  rebase_branch = memory-IsHistory.rebase_branch;
  quiet = λ id held. keeping-IsQuiet (λ d files tokens h. h);
  kept_by_commit = memory-IsHistory.kept_by_commit;
  kept_by_rebase = memory-IsHistory.kept_by_rebase;
}

pub keeping-IsUndisturbed : (branch : String) → IsUndisturbed keeping branch
keeping-IsUndisturbed branch = record { rebased = (memory-IsUndisturbed branch).rebased }

pub keeping-ReadsBack : ReadsBack keeping
keeping-ReadsBack = record {
  read_written = λ io metadata location d d' h.
      ground (arith, get-insert location location metadata d.files, eq_refl location);
}

keeping-quiet_files : (location : String) (m : Meta) → IsQuiet keeping (HasFile location m)
keeping-quiet_files location m = record {
  at_new_table_metadata = λ schema spec order place properties d h. h;
  at_uuid4 = λ d h. h;
  at_write_metadata = λ io written place d h.
      ground (arith, get-insert location place written d.files, eq_iff place location);
  at_append = λ io before rows d h. h;
  at_delete = λ io before predicate d h. h;
  at_overwrite = λ io before rows predicate d h. h;
}

rival_files : (d : Disk) → (rival d).files ≡ d.files
unfolding rival land
rival_files d = ground arith

pub keeping-KeepsFiles : KeepsFiles keeping
unfolding commit_on_disk
keeping-KeepsFiles = record {
  quiet = λ io. keeping-quiet_files;
  kept_by_commit = λ io location m message metadata allow_empty session d h.
      ground (arith, rival_files (record d { commits = suc d.commits }));
  kept_by_rebase = λ io location m session d h. h;
}
