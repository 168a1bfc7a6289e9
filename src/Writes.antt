-- ===== src/Writes.antt =====
-- packages/next/src/actions/resource-actions.ts and field-pipeline.ts: the writes of a resource, from
-- the checks of the submitted fields to the adapter, the audit log and the notices.
mod Fields
mod Filling
mod Aftermath
mod Setup
mod Actions
pub mod Rules
pub mod Values
pub mod Permission
pub mod Scopes
pub mod Reach
pub mod Announcing
unfoldable pub use Fields.*
unfoldable pub use Filling.*
unfoldable pub use Aftermath.*
unfoldable pub use Setup.*
unfoldable pub use Actions.*
