-- ===== src/Lib.antt =====
-- A mall for properties and welfare goods: an Express server over a store that keeps its tables in
-- memory and saves them to one JSON file, a WeChat mini-program in front of it, and a small service
-- of its own that hands out welfare codes by phone number.
--
-- The program's parts, from below:
-- - src/storage/file_store.ts: the cache of the file's data, the rows of its tables, the counter of
--   identifiers, the delayed save and a simple transaction.
-- - src/storage/repositories: one module for each kind of data, over the file store.
-- - src/utils: tokens, order numbers, errors; src/middlewares: the guards before a handler.
-- - src/routes: the handlers, over the repositories.
-- - miniapp: the mini-program, with the cart in its storage and a state machine for each page.
-- - jintai-property: the pages of the mall for properties and of its administrators, in Vue.
-- - FLcode: the service of welfare codes, over SQLite.
--
-- The files:
-- - Base: names of the libraries, tests, lists, integers, the stable sort and the slice.
-- - Js: the values of JavaScript that fields hold, with their comparisons and their arithmetic on
--   whole numbers; Js/Text, texts; Js/Objects, objects as lists of properties.
-- - Store/Table and Store/State: the tables, the process (`_cache`, `_dirty`, `_flushTimer`, the
--   file, DEFAULT_DATA) and the operations that load and save it (loadData, saveDataSync, markDirty,
--   flushNow, nextId, getTable, setTable). Store/Rows: insert, findById, findOne, findAll, update,
--   updateWhere, remove, removeWhere, count. Store/Transaction: withTransaction, clearAll,
--   initDefaultData, and a restart of the process.
-- - Store/Machine: the process as a step relation, in which requests, lists that sort a table in
--   place, the parts of transactions that await, the timer, clearings and crashes come in any order. Store/Refinement: an abstract store,
--   a map from identifiers to rows and a counter for each table.
-- - Repositories: a module for each file of src/storage/repositories, with its functions in snake
--   case; Repositories/Paging has what their `list` functions share; Repositories/Properties has the
--   detail view of the mall (Detail) and the names of communities (Communities) below it.
-- - Http: responses and errors; Http/Guards: requireAdminToken and requireUserAuth.
-- - Utils/Jwt: src/utils/jwt.ts; Utils/Numbers: src/utils/id.ts.
-- - Routes: Orders (src/routes/api_v1/orders.ts and src/routes/orders.ts), MyOrders
--   (src/routes/api_v1/me/orders.ts), Payment (src/routes/api_v1/pay.ts and src/routes/payment.ts),
--   WelfareCodes (src/routes/welfare_codes.ts), Products (src/routes/api_v1/products.ts,
--   src/routes/products.ts and the list of src/routes/reviews.ts), Login (src/routes/api_v1/auth.ts,
--   auth_mini.ts and src/services/wechat_mini.ts), Mall (src/routes/api_v1/properties_mall.ts),
--   AdminOrders, AdminWelfareCodes, AdminCategories, AdminProducts, AdminProperties and SkuLibrary
--   (src/routes/api_v1/admin).
-- - Miniapp: Url (miniapp/utils/url.js), Cart (miniapp/utils/cart.js and miniapp/pages/cart),
--   OrderList (miniapp/pages/order-list), Product (miniapp/pages/product), Checkout
--   (miniapp/pages/checkout), Address (miniapp/pages/address) and Session (miniapp/app.js,
--   miniapp/utils/request.js and miniapp/services/auth.js).
-- - Jintai/Home: the script of jintai-property/h5/src/views/Home.vue; Jintai/Admin: the store, the
--   requests and the router of jintai-property/admin/src. A navigation runs on fuel, and any fuel
--   of two or more is enough.
-- - Flcode: the codes and the import (FLcode/src/db.ts), the sessions and the handlers
--   (FLcode/src/routes/user.ts and FLcode/src/routes/admin.ts).
-- - Modules below these, such as Store/Integrity or Routes/Orders/Cancel, have the theorems. Tests
--   runs the model on a small shop.
--
-- How state is modelled: an operation takes the process and gives back its result with the process
-- after it. The clock, a random number and what a client sent are arguments. An object that may be
-- undefined or null is an Option. A table's array may be the one of DEFAULT_DATA, and a write in
-- place reaches both. A page of the mini-program is its data with the calls under way, and a step
-- for each tap and each answer. All recursion is on lists or numbers, so that everything ends.
--
-- What is taken as given: numbers are whole numbers without a bound, so fractions and infinities are
-- not modelled; the file operations succeed; a schema's validated body, a signature's verdict, a
-- decrypted resource, the JSON texts inside fields, what WeChat answers and the rows of a workbook
-- are arguments, as are toLowerCase and trim. The hashing, base64 and JSON of tokens and the
-- operations of SQLite are records, with what is documented of them as laws. A text orders by its
-- characters where the program uses localeCompare on times. The theorems on identifiers take updates
-- that write none; two handlers of administrators, for products and for welfare codes, pass the body
-- of a request on to an update as it is, and are outside these theorems where it has an `id`.
--
-- Not modelled: the servers' wiring and configuration, MySQL, the WeChat clients for payment and the
-- web login, uploads, exports and template workbooks, the average rating, the other pages of the
-- mini-program, the other front ends in Vue and the scripts.
pub mod Base
pub mod Js
pub mod Store
pub mod Repositories
pub mod Http
pub mod Utils
pub mod Routes
pub mod Flcode
pub mod Miniapp
pub mod Jintai
pub mod Tests
