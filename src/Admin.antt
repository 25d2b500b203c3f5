-- ===== src/Admin.antt =====
-- internal/admin/admin.go: the status page, the tables of the other pages and the guarded changes
-- that they offer. Templates and the format of times are left out.
pub mod Sort
pub mod Status
pub mod Samples
pub mod Index
pub mod Links
pub mod Top
pub mod Paging
pub mod Pages
pub mod Actions
