-- ===== src/RowActions.antt =====
-- packages/next/src/actions/row-action.ts and bulk-action.ts, with action-helpers.ts,
-- action-schema.ts and apply-action-result.ts of packages/next/src/runtime: what an action of a
-- resource does to the rows it is called on.
mod Input
mod Outcome
mod Handlers
mod Bulk
mod Body
mod Routes
pub mod Differences
pub mod Admission
pub mod Atomic
pub mod Guarded
unfoldable pub use Input.*
unfoldable pub use Outcome.*
unfoldable pub use Handlers.*
unfoldable pub use Bulk.*
unfoldable pub use Body.*
unfoldable pub use Routes.*
