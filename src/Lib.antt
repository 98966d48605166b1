-- ===== src/Lib.antt =====
-- icechest keeps Zarr arrays and the Iceberg tables that describe them in one Icechunk repository:
-- a table's current version is a pointer in the metadata of an Icechunk commit, so that arrays and
-- table versions advance together. This library models the package at src/icechest, and its demo,
-- which ingests HLS granules.
--
-- Parts, and how they interact. Paths are from the repository's root.
--   src/icechest/pointer.py      Pointer      the pointer map in commit metadata
--   src/icechest/catalog.py      Catalog      `IcechunkCatalog`: base pointers overlaid with staged
--                                             ones; it writes metadata files and publishes nothing
--   src/icechest/convention.py   Convention   the `iceberg:` declaration on a Zarr group
--   src/icechest/validation.py   Validation   `conflicting_adds`
--   src/icechest/errors.py       Errors       exceptions, as values
--   src/icechest/transaction.py  Intent       `CreateTable`, `AppendRows`, `DeleteRows`,
--                                             `OverwriteRows`: `apply` and `validate`
--                                Transaction  `HybridTransaction`: State (`__init__`), Staging
--                                             (`create_table`, `append`, `delete`, `overwrite`,
--                                             `_capture_base_snapshot`), Commit (`commit`, `_recover`
--                                             and what they call, `__exit__`, the `with` block);
--                                             Writers has any number of transactions on one
--                                             branch, as steps, InTurn the same commits
--                                             one after another
--                                Repo         `HybridRepo.read` and `HybridSnapshot`
--   src/icechest/demo/
--     conventions.py             Demo.Conventions  `multiscale_layout` and `granule_attrs`
--     assets.py                  Demo.Assets       the URL forms of an asset
--     tiff.py                    Demo.Tiff         `parse_ifds`
--     virtualize.py              Demo.Virtualize   `virtual_granule`, `write_granule_to_store` and
--                                                  `write_granule`
--     hash.py                    Demo.Hash         `with_stac_hash`
--     ingest.py                  Demo.Ingest       the loop of `ingest_batch`; Publishing has what is
--                                                  around it, from the hash to the commit, and
--                                                  Steps the whole as a writer among others
--     credentials.py             Demo.Credentials  the container, its credentials, and the registry
--     store.py                   Demo.Store        `granules_schema`, `open_store`, `ensure_table`
--     source.py                  Demo.Source       `granule_filter` and `select_granules`
--   examples/concurrent_writers.py  Examples.ConcurrentWriters  the script, with what it prints
-- A transaction holds a session of Icechunk, a catalog, and the intents that it was given.
-- `commit` applies the intents to the catalog, which stages new pointers, and commits the session
-- with the overlaid map. On a conflict `_recover` checks that all staged work can be replayed,
-- adopts the tip's pointers and rebases the session, and the loop goes round again.
-- An ingest selects rows of the archive, hashes them, writes each granule's arrays into the
-- session of one transaction, appends the rows of those that it wrote, and commits. The loop is
-- over an interface, `GranuleStore`, which Virtualize.Writing fills with `write_granule`.
--
-- PyIceberg, Icechunk, Zarr and `uuid` are the record `Platform`, a parameter of the package's own
-- parts and of the demo's transactions. Its type `World` is what lies outside the process:
-- storage, and the repository with the commits of other writers, which may happen within any call
-- that returns a new world. Where the writers are steps of the model (Transaction.Writers), they
-- are the only ones: `IsClosed` says that a commit of theirs is accepted only from the tip, and
-- that nothing else moves it. A round, and a recovery, is then one step: the calls that a round
-- makes before its commit are on the writer's own catalog and session, and `IsUndisturbed` is what
-- makes a recovery one. A theorem that relies on documented behaviour of a library names it:
-- Platform.Laws has `ReadsBack` (a file reads back as written), `Records` (a commit keeps its
-- metadata), `IsHistory` (snapshots keep their metadata and the parent that the session was on),
-- `IsQuiet` (calls on tables leave the repository alone), `KeepsFiles` (a metadata file stays as
-- it was written), `IsCount` (an append adds its rows to what a version counts), `KeepsPlace`
-- (Zarr leaves a session on its snapshot) and `IsUndisturbed` (no one lands between the read of a
-- tip and the end of the rebase onto it); Transaction.Settling has `Settles` (others stand in the
-- way of a commit a bounded number of times).
-- Tests.Memory is such a platform, kept in memory, with other writers to order; the witnesses run
-- on it.
-- The demo's parts take what they call beside it: `Floats` (Python's floats), `Arrays`
-- (VirtualiZarr, xarray and Zarr), `Hashing` (PyArrow's columns and the hasher), `BatchTools` (the
-- session's nodes, the writer, PyArrow), `Schemas` (PyIceberg's), `Earthdata` (earthaccess-auth,
-- icechunk, obstore), `LocalStores` (Icechunk on disk), `Archive` (PyIceberg's filters and scans)
-- and `Cogs` (reads of a COG); the script takes `Script` (Zarr and PyArrow). What theorems rely on
-- of these is named beside them: `WritesInPlace` (filling a slice does so too), `StagesInPlace`
-- (so do writing and deleting the arrays of a granule), `OwnNode`,
-- `OwnPaths` and `Deletes` (a call concerns the path that it is given), `WritesVariables`,
-- `Filters`, `Resolves`.
--
-- Operations that may raise give `ok` or `err`, with the state as it was left beside either. Exec
-- has the sequencing. The rounds of `commit` go by recursion on the retries that are left, of
-- which the source has `max_retries`, taken to be no less than 0. The loop of `parse_ifds` takes a
-- bound on its turns, and answers `none` where it has not ended within them; one more than the
-- header has bytes is enough where the chain of directories goes forward. Nothing else needs a
-- bound. Dicts are lists of items in insertion order. Sets of names are lists without repetition.
-- Metadata versions and snapshot ids are natural numbers of any size, as in Python.
--
-- Not modelled: attributes under `iceberg:tables` that are objects with other values than texts,
-- which the model refuses and the source merges; messages of exceptions, less the reasons of the ingest, and logging; the caches of
-- `HybridSnapshot` and of `hasher`; exceptions of `zarr.open` other than that a node is not there;
-- the listing of the history at the end of the script under examples; the notebook there, which
-- calls the demo and shows what comes back; the modules that only pass names on.
pub mod Base
pub mod Errors
pub mod Formats
pub mod Platform
pub mod Pointer
pub mod Catalog
pub mod Convention
pub mod Validation
pub mod Intent
pub mod Transaction
pub mod Repo
pub mod Demo
pub mod Examples
pub mod Tests
