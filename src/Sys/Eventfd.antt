-- ===== src/Sys/Eventfd.antt =====
-- sys/eventfd/lua_eventfd.c: event counters behind userdata.
pub mod Life
pub mod Tests
use flualibs.Common.{ℕ, List, [], ◌∷◌}
use flualibs.Common.Int.{ℤ, pos, to_int, to_word, of_word}
use flualibs.Lua.{Value, Meta}
use flualibs.Lua.Run.{Cmd, pure, Api, checkinteger, optinteger, ◌>>=◌, ◌>>◌}
use flualibs.Utils.{success, fail}
use flualibs.Sys.{Answer, answered}
use flualibs.Sys.Descriptor.{
  World, system_call, checknil, open_descriptor, newdescriptor, close_value,
}

-- The calls of the kernel, on its state.
pub record Kernel (K : Type 0) : Type 0 where
  pub eventfd : (initval : ℕ) → (flags : ℤ) → K → Answer ℤ × K
  pub close : ℤ → K → Answer (Unit {0}) × K
  pub eventfd_read : ℤ → K → Answer ℕ × K
  pub eventfd_write : ℤ → ℕ → K → Answer (Unit {0}) × K

module _ {K : Type 0} (api : Api) (kernel : Kernel K) where
  abbrev pub checkeventfdnil : ℕ → Value → Cmd (World K) Value
  checkeventfdnil idx v = checknil Meta.eventfd idx v

  abbrev pub checkeventfd : ℕ → Value → Cmd (World K) ℤ
  checkeventfd idx v = do
    filedesc ← checkeventfdnil idx v
    open_descriptor "invalid eventfd (closed)" idx filedesc

  abbrev pub neweventfd : ℤ → Cmd (World K) (List Value)
  neweventfd fd = newdescriptor Meta.eventfd fd

  unfoldable pub l_eventfd : (v opt : Value) → Cmd (World K) (List Value)
  l_eventfd v opt = do
    initval ← checkinteger api 1 v
    flags ← optinteger api 2 opt (pos 0)
    fd ← system_call (kernel.eventfd (to_word 32 initval) (to_int flags))
    answered api fd neweventfd

  unfoldable pub l_eventfd_close : Value → Cmd (World K) (List Value)
  l_eventfd_close v = do filedesc ← checkeventfdnil 1 v; close_value api kernel.close v filedesc

  unfoldable pub l_eventfd_fileno : Value → Cmd (World K) (List Value)
  l_eventfd_fileno v = do fd ← checkeventfd 1 v; pure (Value.integer fd ∷ [])

  unfoldable pub l_eventfd_read : Value → Cmd (World K) (List Value)
  l_eventfd_read v = do
    fd ← checkeventfd 1 v
    value ← system_call (kernel.eventfd_read fd)
    answered api value (λ n. pure (Value.integer (of_word 64 n) ∷ []))

  unfoldable pub l_eventfd_write : (v w : Value) → Cmd (World K) (List Value)
  l_eventfd_write v w = do
    fd ← checkeventfd 1 v
    value ← checkinteger api 2 w
    a ← system_call (kernel.eventfd_write fd (to_word 64 value))
    answered api a (λ u. pure success)

  unfoldable pub l_eventfd_wrap : Value → Cmd (World K) (List Value)
  l_eventfd_wrap v = do fd ← checkinteger api 1 v; neweventfd (to_int fd)
