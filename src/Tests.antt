-- ===== src/Tests.antt =====
-- Runs on a platform kept in memory, and the theorems at concrete inputs.
mod Memory
mod MemoryLaws
mod KeepingLaws
mod ClosedLaws
mod RowTests
mod WriterTests
mod ExampleTests
mod CatalogTests
mod TransactionTests
mod ReadingTests
mod IngestTests
mod TiffTests
mod AssetTests
mod HashTests
mod CredentialTests
mod SourceTests
mod PublishingTests
mod GrowthTests
mod StoreTests
mod VirtualizeTests
mod SettlingTests
