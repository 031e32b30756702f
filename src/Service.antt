-- ===== src/Service.antt =====
-- webapp/backend/internal/service
pub mod Timeout
pub mod Robot
pub mod Product
pub mod Order
pub mod Auth
