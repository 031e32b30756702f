-- ===== src/Repository.antt =====
-- webapp/backend/internal/repository
pub mod Store
pub mod Order
pub mod Product
pub mod Session
pub mod User
