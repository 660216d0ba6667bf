-- ===== src/Pthread/Defs.antt =====
-- The counted objects of libpthread/lua_pthread.c and the pthread library, which is a parameter.
use flualibs.Common.{ℕ, String, List, ◌==◌, if◌then◌else◌}
use flualibs.Common.Int.{ℤ}
use flualibs.Lua.{Value, Store}
use flualibs.Lua.Run.{Api}
use flualibs.Utils.{success, fail}

-- `struct rcthread`, `rconce`, `rcmutex`, `rccond`, `rcrwlock`, `rckey`, `rcbarrier`: the count, and
-- the `pthread_t` or `pthread_key_t`. The other pthread objects lie in the struct and are known to the
-- library by their address.
pub record Rc : Type 0 where
  pub refs : ℕ
  pub handle : ℤ

abbrev pub RcStore : Type 0
RcStore = Store Rc

-- The pthread library during one call from Lua: the error number that a function returns for its
-- arguments (0 for success), and the integer that it gives or stores.
pub record Lib : Type 0 where
  pub call : String → List ℤ → ℕ
  pub out : String → List ℤ → ℤ
  pub enomem : ℕ
  pub etimedout : ℕ
  pub serial_thread : ℕ

-- The usual end: an error number fails, 0 succeeds.
abbrev pub status : Api → ℕ → List Value
status api error = if error == 0 then success else fail api error
