-- ===== src/Engine/Refine.antt =====
-- packages/domain/src/engine.ts: what an operation returns is related to its interview by a change.
mod Commands
mod Plans
mod Completions
mod Handle
pub use Plans.*
pub use Completions.*
pub use Handle.*
