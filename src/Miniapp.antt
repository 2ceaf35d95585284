-- ===== src/Miniapp.antt =====
-- The mini-program: its cart, its pages, and its login.
pub mod Url
pub mod Cart
pub mod OrderList
pub mod Product
pub mod Checkout
pub mod Session
pub mod Address
