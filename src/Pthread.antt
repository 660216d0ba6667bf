-- ===== src/Pthread.antt =====
-- libpthread/lua_pthread.c: threads, locks, keys, barriers and rendezvous behind counted references, the
-- methods on them, the cleanup handlers, values that go from one Lua state to another, and the life of
-- a thread.
pub mod Defs
pub mod Handles
pub mod Methods
pub mod Create
pub mod Created
pub mod Ownership
pub mod Cleanup
pub mod Copy
pub mod Rendezvous
pub mod Attr
pub mod Threads
pub mod Tests
