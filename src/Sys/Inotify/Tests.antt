-- ===== src/Sys/Inotify/Tests.antt =====
-- Concrete reads of sys/inotify/lua_inotify.c.
use flualibs.Common.{ℕ, ◌≡◌, refl, arith, suc, some, none, List, [], ◌∷◌}
use flualibs.Common.Int.{pos}
use flualibs.Lua.{Value, end, Meta, Userdata, Store}
use flualibs.Lua.Run.{done, Api}
use flualibs.Sys.{result, failed}
use flualibs.Sys.Descriptor.{World}
use flualibs.Sys.Descriptor.Refinement.{represents, with_filedesc}
use flualibs.Sys.Inotify.{Kernel, events_of, l_inotify_read}
use flualibs.Sys.Inotify.Events.{Event, AllValid, all_bytes, values}
use flualibs.Sys.Inotify.Reading.{Ended, l_inotify_read-all_bytes, events_of-Ended}

abbrev api : Api
api = record {
  to_integer = λ v. none;
  to_string = λ v. none;
  strerror = λ e. [];
  fileno_errno = 9;
  sequence = λ v. none;
}

-- A file "ab" was made, and its directory was opened.
abbrev two_events : List Event
two_events =
    record { wd = 1; mask = 256; cookie = 0; name = some (97 ∷ 98 ∷ [], 1) }
    ∷ record { wd = 1; mask = 1073741856; cookie = 0; name = none }
    ∷ []

two_events-AllValid : AllValid two_events
two_events-AllValid = (
  record {
    wd_word = omega arith;
    mask_word = omega arith;
    cookie_word = omega arith;
    len_word = omega arith;
    no_nul = (omega arith, (omega arith, tt));
  },
  (
    record {
      wd_word = omega arith;
      mask_word = omega arith;
      cookie_word = omega arith;
      len_word = omega arith;
      no_nul = tt;
    },
    tt,
  ),
)

-- The state of the kernel is the number of reads.
abbrev kernel : Kernel ℕ
kernel = record {
  inotify_init1 = λ flags k. (result (pos 3), k);
  close = λ fd k. (result tt, k);
  read = λ fd k. (result (all_bytes two_events, 7 ∷ 7 ∷ []), suc k);
  inotify_add_watch = λ fd path mask k. (result (pos 1), k);
  inotify_add_watch_at = λ fd dfd path mask k. (result (pos 1), k);
  inotify_rm_watch = λ fd wd k. (failed 22, k);
}

abbrev kind : Userdata
kind = record { meta = Meta.inotify; cookie = Value.nil; ref = Value.nil; block = none }

abbrev base : Store (Unit {0})
base = record { cell = λ q. none; next = 1; uds = kind ∷ [] }

l_inotify_read-all_bytes_example :
    l_inotify_read api kernel
      (Value.userdata 0)
      (represents (with_filedesc kind) base 0 (some (pos 3), 4))
    ≡ done
        (Value.table (values two_events) end ∷ [])
        (represents (with_filedesc kind) base 0 (some (pos 3), 5))
l_inotify_read-all_bytes_example =
    l_inotify_read-all_bytes api kernel kind base 0 (omega arith) refl (pos 3) 4 5 two_events
      (7 ∷ 7 ∷ []) two_events-AllValid refl

abbrev world : World ℕ
world = represents (with_filedesc kind) base 0 (some (pos 3), 4)

events_of-Ended_example : Ended (events_of (all_bytes two_events, 7 ∷ 7 ∷ []) world)
events_of-Ended_example = events_of-Ended (all_bytes two_events) (7 ∷ 7 ∷ []) world
