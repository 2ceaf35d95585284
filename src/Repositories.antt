-- ===== src/Repositories.antt =====
-- src/storage/repositories: one module for each repository, over the file store.
pub mod Paging
pub mod Orders
pub mod WelfareCodes
pub mod Products
pub mod Users
pub mod Categories
pub mod Properties
pub mod Reviews
pub mod Admins
