-- ===== src/Routes.antt =====
-- src/routes: one module for each router that is modelled. A request is a handler's arguments, its
-- body one object of scalar fields; `now` is the clock's reading for the whole request.
pub mod Login
pub mod AdminProperties
pub mod Mall
pub mod Orders
pub mod MyOrders
pub mod AdminOrders
pub mod Payment
pub mod WelfareCodes
pub mod AdminWelfareCodes
pub mod AdminCategories
pub mod AdminProducts
pub mod Products
pub mod SkuLibrary
