-- ===== src/Signal.antt =====
-- signal/lua_signal.h: a `struct sigevent` from a Lua table. The struct is zeroed and then assigned
-- member by member; which members share memory is the system's, so the model keeps the assignments.
use flualibs.Common.{ℕ, List, [], ◌∷◌, ◌++◌}
use flualibs.Common.Int.{ℤ, pos, to_int}
use flualibs.Lua.{Value, getfield, Fields}
use flualibs.Lua.Run.{Cmd, arg_error, pure, raise, Api, checkinteger, ◌>>=◌}

pub data Member : Type 0 where
  notify notify_kqueue notify_kevent_flags notify_thread_id signo sival_ptr sival_int : Member

abbrev pub Sigevent : Type 0
Sigevent = List (Member × ℤ)

module _ (api : Api) {S : Type 0} where
  -- One use of INTFIELD: a field that is not nil is assigned, as an int.
  abbrev int_field : Member → Value → Cmd S Sigevent
  int_field m Value.nil = pure []
  int_field m v = do n ← checkinteger api 0 v; pure ((m, to_int n) ∷ [])

  abbrev sigval : Value → Cmd S Sigevent
  sigval (Value.light p) = pure ((sival_ptr, pos p) ∷ [])
  sigval v = int_field sival_int v

  sigevent_of : Fields → Cmd S Sigevent
  sigevent_of fs = do
    a ← int_field notify (getfield fs "notify")
    b ← int_field notify_kqueue (getfield fs "notify_kqueue")
    c ← int_field notify_kevent_flags (getfield fs "notify_kevent_flags")
    d ← int_field notify_thread_id (getfield fs "notify_thread_id")
    e ← int_field signo (getfield fs "signo")
    f ← sigval (getfield fs "value")
    pure (a ++ b ++ c ++ d ++ e ++ f)

  unfoldable pub checksigevent : ℕ → Value → Cmd S Sigevent
  unfolding sigevent_of
  checksigevent i (Value.table vs fs) = sigevent_of fs
  checksigevent i v = raise (arg_error i "table expected")
