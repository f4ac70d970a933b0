-- ===== src/BufferStore.antt =====
-- utils/wvbufferstore.cc: the stores that hold a buffer's bytes, behind the API of include/wvbuf.h.
pub mod Memory
pub mod Base
pub mod InPlace
pub mod Circular
pub mod Linked
pub mod Dynamic
