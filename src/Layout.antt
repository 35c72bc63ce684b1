-- ===== src/Layout.antt =====
-- The pointers of the wire format and the objects they point to (src/private/layout.rs).
pub mod Pointer
pub mod Fields
pub mod Memory
pub mod Reading
pub mod Contract
pub mod Readers
pub mod Texts
pub mod Building
pub mod Builders
pub mod Size
mod Tests
