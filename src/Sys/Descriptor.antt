-- ===== src/Sys/Descriptor.antt =====
-- A file descriptor behind a userdata, as sys/eventfd/lua_eventfd.c and sys/inotify/lua_inotify.c
-- keep it: the user value FILEDESC is an integer, or nil once it is closed.
pub mod Refinement
use flualibs.Common.{ℕ, String, List, [], ◌∷◌, length, ◌++◌, Option, none, some}
use flualibs.Common.Int.{ℤ, pos, to_int}
use flualibs.Lua.{Value, Meta, Userdata, Store}
use flualibs.Lua.Run.{
  Run, Cmd, done, raised, fault, aborted, out_of_fuel, arg_error, pure, raise, Api, ◌>>=◌, ◌>>◌,
}
use flualibs.Utils.{success, fail, checkudata, setuservalue}
use flualibs.Sys.{Answer, result, failed, answered}

-- The userdata, and the state of the kernel, on which the system calls act.
pub record World (K : Type 0) : Type 0 where
  pub store : Store (Unit {0})
  pub kernel : K

module _ {K A : Type 0} where
  abbrev pub in_world : World K → Run (Store (Unit {0})) A → Run (World K) A
  in_world w (done a s) = done a (record w { store = s })
  in_world w (raised e s) = raised e (record w { store = s })
  in_world w fault = fault
  in_world w aborted = aborted
  in_world w out_of_fuel = out_of_fuel

  -- What only reads or writes the userdata.
  abbrev pub on_store : Cmd (Store (Unit {0})) A → Cmd (World K) A
  on_store m w = in_world w (m w.store)

  -- A system call changes only the kernel.
  abbrev pub after_call : World K → A × K → Run (World K) A
  after_call w (a, k) = done a (record w { kernel = k })

  abbrev pub system_call : (K → A × K) → Cmd (World K) A
  system_call f w = after_call w (f w.kernel)

-- `lua_tointeger`, which gives 0 for what is no number.
abbrev pub tointeger : Api → Value → ℤ
tointeger api v = elim (api.to_integer v) [ none ↦ pos 0 | some n ↦ n ]

module _ {K : Type 0} where
  -- `lua_getiuservalue(L, idx, FILEDESC)` of a userdata of the kind.
  abbrev pub checknil : Meta → ℕ → Value → Cmd (World K) Value
  checknil m idx v = do (u, d) ← on_store (checkudata idx m v); pure d.cookie

  abbrev pub open_descriptor : String → ℕ → Value → Cmd (World K) ℤ
  open_descriptor closed idx (Value.integer n) = pure (to_int n)
  open_descriptor closed idx v = raise (arg_error idx closed)

  abbrev pub newdescriptor : Meta → ℤ → Cmd (World K) (List Value)
  newdescriptor m fd w = done (Value.userdata (length w.store.uds) ∷ []) (record w {
    store = record (w.store) {
      uds =
          w.store.uds
          ++ record { meta = m; cookie = Value.integer fd; ref = Value.nil; block = none } ∷ [];
    };
  })

  -- A descriptor that is not nil is closed, and then set to nil if that succeeded.
  abbrev pub close_value :
      Api
      → (close : ℤ → K → Answer (Unit {0}) × K) → (v filedesc : Value) → Cmd (World K) (List Value)
  close_value api close v Value.nil = pure success
  close_value api close v filedesc = do
    a ← system_call (close (to_int (tointeger api filedesc)))
    answered api a (λ u. on_store (setuservalue v Value.nil) >> pure success)
