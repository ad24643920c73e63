-- ===== src/Common.antt =====
-- What the feature modules share (src/common): errors, pages, the cache, roles and guards.
pub mod Errors
pub mod Pagination
pub mod Listing
pub mod Stateful
pub mod Roles
pub mod Filter
pub mod Cache
