-- ===== src/Lua.antt =====
-- The Lua values and objects that the C functions of the library read and make, the outcome of a C
-- function, and the conversions of Lua's API, which are parameters.
mod Values
pub mod Stack
pub mod Run
pub use Values.*
