-- ===== src/Sys/Event/Tests.antt =====
-- A concrete kevent of sys/event/lua_event.c.
use flualibs.Common.{refl, arith, false, Option, some, none, List, [], ◌∷◌}
use flualibs.Common.Int.{ℤ, pos, negsuc}
use flualibs.Lua.{Value, Items, item, last, Fields, field, end, Meta}
use flualibs.Lua.Run.{Api}
use flualibs.Sys.{result}
use flualibs.Sys.Event.{Kevent, Queue, Polled, event, unpolled, Kernel, l_kevent}
use flualibs.Sys.Event.Changes.{KeepsList, l_kevent-KeepsList}

abbrev integer_of : Value → Option ℤ
integer_of (Value.integer n) = some n
integer_of v = none

abbrev api : Api
api = record {
  to_integer = integer_of;
  to_string = λ v. none;
  strerror = λ e. [];
  fileno_errno = 9;
  sequence = λ v. none;
}

-- The kernel gives back the first change as the event.
abbrev first_change : List (Option Kevent) → Polled
first_change (some e ∷ changes) = event e
first_change changes = unpolled 22

abbrev kernel : Kernel
kernel = record {
  kqueuex = λ flags. result (pos 3);
  kevent = λ kq changes. first_change changes;
  close = λ kq. result tt;
}

abbrev one_queue : Queue
one_queue = record {
  cell = λ q. none;
  next = 1;
  uds =
      record { meta = Meta.kqueue; cookie = Value.nil; ref = Value.nil; block = some (pos 3) } ∷ [];
}

-- A descriptor to be watched for input: EVFILT_READ, EV_ADD.
abbrev watched : Fields
watched =
    field "ident" (Value.integer (pos 0))
      (field "filter" (Value.integer (negsuc 0)) (field "flags" (Value.integer (pos 1)) end))

abbrev changes : Items
changes = item (Value.table last watched) last

l_kevent-KeepsList_example :
    KeepsList 1
      (l_kevent api kernel (λ q. false) 12 (Value.userdata 0) (Value.table changes end) one_queue)
l_kevent-KeepsList_example =
    l_kevent-KeepsList api kernel (λ q. false) 12 one_queue 0 changes end refl refl (omega arith)
      refl
