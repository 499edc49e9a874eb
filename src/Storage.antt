-- ===== src/Storage.antt =====
-- The storage layer, pkg/storage.
pub mod RowLock
pub mod RowCodec
pub mod Hub
pub mod UniqueCache
pub mod Store
pub mod Session
