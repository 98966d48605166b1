-- ===== src/Transaction/State.antt =====
-- The state of a transaction, how it begins, and actions on it.
use icechest.Base.{
  ℕ, String, Bool, false, Option, none, some, List, [], ◌==◌, if◌then◌else◌, rstrip_slash,
}
use icechest.Base.Dict.{Dict}
use icechest.Base.Exec.{Result, ok, err, Exec, modify, ◌>>=ᵣ◌}
use icechest.Catalog.{IcechunkCatalog, CatalogExec, new_catalog}
use icechest.Errors.{Error, session_on_other_branch}
use icechest.Intent.{TableIntent}
use icechest.Platform.{Platform}
use icechest.Pointer.{read_pointers}

-- `DEFAULT_MAX_RETRIES`
abbrev pub default_max_retries : ℕ
default_max_retries = 10

-- `HybridRepo`: the warehouse behind a repository. The repository itself is in the world.
pub record HybridRepo : Type 0 where
  pub warehouse : String
  pub io_properties : Dict String

-- `dict(io_properties or {})`
abbrev given_properties : Option (Dict String) → Dict String
given_properties none = []
given_properties (some properties) = properties

unfoldable pub hybrid_repo : String → Dict String → HybridRepo
hybrid_repo warehouse io_properties = record {
  warehouse = rstrip_slash warehouse;
  io_properties = io_properties;
}

-- `_catalog_for`
unfoldable pub catalog_for : HybridRepo → Dict String → Bool → IcechunkCatalog
unfolding new_catalog
catalog_for repo pointers read_only =
    new_catalog repo.warehouse pointers repo.io_properties read_only

pub record HybridTransaction (P : Platform) : Type 0 where
  pub repo : HybridRepo
  pub branch : String
  pub message : String
  pub max_retries : ℕ
  pub intents : List (TableIntent P)
  -- each table's Iceberg snapshot as of the start, where an operation needed it
  pub base_snapshots : Dict (Option ℕ)
  pub unmanaged_staged : List String
  pub session : P.Session
  pub catalog : IcechunkCatalog
  pub snapshot_id : Option String

module _ (P : Platform) where
  open P use {
    World, RawSchema, PartitionSpec, SortOrder, Rows, Expression, Session, current_snapshot_id,
    writable_session, session_branch, session_snapshot_id, has_uncommitted_changes, discard_changes,
    session_commit, session_rebase, open_group, group_attributes, update_attributes,
  }

  abbrev pub Transaction : Type 0
  Transaction = HybridTransaction P

  abbrev pub TransactionExec : Type 0 → Type 0
  TransactionExec = Exec (Transaction × World) (Error Expression)

  -- The session of a transaction: a new one, or the caller's if it is on the branch.
  session_for : String → Option Session → World → Result (Error Expression) Session
  session_for branch none w = writable_session branch w
  session_for branch (some session) w =
      if session_branch session == branch
      then ok session
      else err (session_on_other_branch (session_branch session) branch)

  -- `HybridTransaction(repo, branch, message, max_retries=..., session=...)`
  unfoldable pub begin :
      HybridRepo
      → String
      → String
      → ℕ
      → Option Session
      → World
      → Result (Error Expression) Transaction
  unfolding session_for
  begin repo branch message max_retries given w = session_for branch given w >>=ᵣ λ session.
      read_pointers P (session_snapshot_id session) w >>=ᵣ λ pointers. ok (record {
        repo = repo;
        branch = branch;
        message = message;
        max_retries = max_retries;
        intents = [];
        base_snapshots = [];
        unmanaged_staged = [];
        session = session;
        catalog = catalog_for repo pointers false;
        snapshot_id = none;
      })

  abbrev pub on_transaction : (Transaction → Transaction) → TransactionExec (Unit {0})
  on_transaction f = modify (λ (tx, w). (f tx, w))

  abbrev pub with_session : Transaction → Session → Transaction
  with_session tx session = record tx { session = session }

  -- A call of the transaction's catalog.
  unfoldable pub on_catalog : {A : Type 0} → CatalogExec P A → TransactionExec A
  on_catalog m (tx, w) = let (r, s) = m (tx.catalog, w) in (r, (record tx { catalog = s.0 }, s.1))

  -- `HybridRepo.create(storage, warehouse, io_properties=...)`, by what
  -- `Repository.open_or_create(storage)` does.
  unfoldable pub create_repo :
      (World → Result (Error Expression) (Unit {0}) × World)
      → String
      → Option (Dict String)
      → World
      → Result (Error Expression) HybridRepo × World
  unfolding hybrid_repo
  create_repo open_or_create warehouse io_properties w =
      let (r, w') = open_or_create w in
      elim r [
        | err e ↦ (err e, w')
        | ok opened ↦ (ok (hybrid_repo warehouse (given_properties io_properties)), w')
      ]

  -- `repo.transaction(branch, message, max_retries=..., session=...)`
  unfoldable pub transaction :
      HybridRepo
      → String
      → String
      → Option ℕ
      → Option Session
      → World
      → Result (Error Expression) Transaction
  transaction repo branch message none session w =
      begin repo branch message default_max_retries session w
  transaction repo branch message (some max_retries) session w =
      begin repo branch message max_retries session w

  -- A call of Zarr on the transaction's `group`, by what it makes of the session.
  unfoldable pub on_group :
      (Session → Result (Error Expression) Session) → TransactionExec (Unit {0})
  on_group call (tx, w) = elim (open_group tx.session) [
    | err e ↦ (err e, (tx, w))
    | ok opened ↦ elim (call opened) [
      | err e ↦ (err e, (with_session tx opened, w))
      | ok written ↦ (ok tt, (with_session tx written, w))
    ]
  ]
