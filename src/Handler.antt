-- ===== src/Handler.antt =====
-- webapp/backend/internal/handler
pub mod Response
pub mod Paging
pub mod Order
pub mod Product
pub mod Image
pub mod Robot
pub mod Auth
