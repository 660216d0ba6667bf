-- ===== src/Aio.antt =====
-- aio/lua_aio.c: control blocks for asynchronous I/O, shared by reference count, with a state that
-- guards the buffer.
mod Defs
pub mod Create
pub mod Submit
pub mod Release
pub mod Batch
pub mod Protocol
pub mod Submission
pub mod Returning
pub mod Disposal
pub mod Closing
pub mod Listing
pub use Defs.*
pub mod Sharing
pub mod Waiting
pub mod Tests
