-- ===== src/Transaction.antt =====
-- transaction.py: `HybridTransaction`, and the parts of `HybridRepo` that it uses. A method is an
-- action on the transaction and the world; `commit` runs the retry loop.
mod State
mod Staging
mod Commit
pub mod Rounds
mod Quiet
pub mod Bounds
pub mod Coverage
pub mod Frame
pub mod Handles
pub mod Window
pub mod Replay
pub mod Atomic
pub mod InStep
pub mod Serial
pub mod Rows
pub mod Writers
pub mod Settling
unfoldable pub use State.*
unfoldable pub use Staging.*
unfoldable pub use Commit.*
