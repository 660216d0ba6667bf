-- ===== src/Sys/Eventfd/Tests.antt =====
-- A concrete event counter of sys/eventfd/lua_eventfd.c.
use flualibs.Common.{ℕ, ◌+◌, ◌≡◌, refl, arith, Option, some, none, List, [], ◌∷◌, map}
use flualibs.Common.Int.{ℤ, pos}
use flualibs.Lua.{Value, Meta, Userdata, Store}
use flualibs.Lua.Run.{Api}
use flualibs.Sys.{result}
use flualibs.Sys.Descriptor.Refinement.{operate, calls, represents, with_filedesc}
use flualibs.Sys.Eventfd.{Kernel}
use flualibs.Sys.Eventfd.Life.{
  Method, close, read, write, handler, operation, calls-operate_eventfd,
}

abbrev integer_of : Value → Option ℤ
integer_of (Value.integer n) = some n
integer_of v = none

abbrev api : Api
api = record {
  to_integer = integer_of;
  to_string = λ v. none;
  strerror = λ e. [];
  fileno_errno = 9;
  sequence = λ v. none;
}

-- The state of the kernel is the counter; a read takes it.
abbrev counter : Kernel ℕ
counter = record {
  eventfd = λ initval flags k. (result (pos 3), initval);
  close = λ fd k. (result tt, 0);
  eventfd_read = λ fd k. (result k, 0);
  eventfd_write = λ fd n k. (result tt, k + n);
}

abbrev kind : Userdata
kind = record { meta = Meta.eventfd; cookie = Value.nil; ref = Value.nil; block = none }

abbrev base : Store (Unit {0})
base = record { cell = λ q. none; next = 1; uds = kind ∷ [] }

abbrev ms : List Method
ms = write (Value.integer (pos 5)) ∷ read ∷ close ∷ close ∷ read ∷ []

calls-operate_eventfd_example :
    calls
      (map (handler api counter) ms)
      (Value.userdata 0)
      (represents (with_filedesc kind) base 0 (some (pos 3), 2))
    ≡ some (
      (operate (map (operation api counter) ms) (some (pos 3), 2)).0,
      represents
          (with_filedesc kind)
          base
          0
          (operate (map (operation api counter) ms) (some (pos 3), 2)).1,
    )
calls-operate_eventfd_example =
    calls-operate_eventfd api counter kind base 0 (omega arith) refl (λ n. refl) ms
      (some (pos 3), 2)
