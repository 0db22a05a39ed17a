-- ===== src/ReviewerActions.antt =====
-- Reviewer actions (packages/python/atlas/reviewer_actions.py): the definitions are in `Types`,
-- `Checks` and `Process`, and what the processor guarantees in the other children.
mod Tests
mod Types
mod Checks
mod Process
pub mod Authority
pub mod Locking
pub mod Cooling
pub mod Bulk
unfoldable pub use Types.*
unfoldable pub use Checks.*
unfoldable pub use Process.*
