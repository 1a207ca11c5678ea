-- ===== src/Storage.antt =====
-- src/libisa/components/storage and components/delta: storage devices, and the histories of their changes.
pub mod Device
pub mod Ram
pub mod Delta
pub mod Block
pub mod Session
pub mod Map
pub mod Range
pub mod ReadOnly
pub mod Layered
pub mod Channel
pub mod Mmio
