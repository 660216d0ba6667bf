-- ===== src/Sys/Inotify/Reading.antt =====
-- What a read of sys/inotify/lua_inotify.c gives, and that its loop ends.
use flualibs.Common.{
  ℕ, zero, suc, ◌-◌, ◌≤◌, ◌<◌, ◌≡◌, refl, arith, Option, none, some, List, [], ◌∷◌, ◌++◌, length,
  true,
}
use flualibs.Common.Int.{ℤ, to_int}
use flualibs.Lua.{Value, Items, end, Meta, same_meta, Userdata, Store}
use flualibs.Lua.Run.{Run, Cmd, pure, and_then, done, raised, fault, aborted, out_of_fuel, Api}
use flualibs.Sys.{result}
use flualibs.Sys.Descriptor.{World}
use flualibs.Sys.Descriptor.Refinement.{represents, with_filedesc, checknil-represents}
use flualibs.Sys.Inotify.Buffer.{◌>>=◌, word, name_field, pushevent}
use flualibs.Sys.Inotify.{Kernel, next_event, read_events, events_of, l_inotify_read}
use flualibs.Sys.Inotify.Events.{Event, AllValid, all_bytes, values, read_events-all_bytes}

module _ {K : Type 0} (api : Api) (kernel : Kernel K) (kind : Userdata) (base : Store (Unit {0}))
    (u : ℕ) (at : u < length base.uds) (same : same_meta kind.meta Meta.inotify ≡ true) where
  -- When the kernel fills in any number of well-formed events, a read through an open descriptor
  -- gives the table of exactly these events, in their order, whatever lies behind them.
  pub l_inotify_read-all_bytes :
      (n : ℤ) (k k' : K) (es : List Event) (stale : List ℕ)
      → AllValid es
      → kernel.read (to_int n) k ≡ (result (all_bytes es, stale), k')
      → l_inotify_read api kernel
          (Value.userdata u)
          (represents (with_filedesc kind) base u (some n, k))
        ≡ done
            (Value.table (values es) end ∷ [])
            (represents (with_filedesc kind) base u (some n, k'))
  unfolding l_inotify_read
  l_inotify_read-all_bytes n k k' es stale v e =
      rw
        (
          checknil-represents kind base u at Meta.inotify 1 (some n, k) same,
          e,
          read_events-all_bytes (length (all_bytes es)) es stale
              (represents (with_filedesc kind) base u (some n, k')) v (omega arith),
        )
        refl

-- An event is at least as long as its fixed part.
abbrev Long : Option (Value × ℕ × List ℕ) → Type 0
Long none = Unit
Long (some (event, len, area)) = 16 ≤ len

>>=-Long :
    {A : Type 0} (x : Option A) (f : A → Option (Value × ℕ × List ℕ))
    → ((a : A) → Long (f a))
    → Long (x >>= f)
>>=-Long none f h = tt
>>=-Long (some a) f h = h a

pushevent-Long : (area : List ℕ) → Long (pushevent area)
unfolding pushevent
pushevent-Long area = >>=-Long (word area) _ λ wd. >>=-Long (word (wd.1)) _ λ mask.
    >>=-Long (word (mask.1)) _ λ cookie.
      >>=-Long (word (cookie.1)) _
        λ len. >>=-Long (name_field (len.0) (len.1)) _ λ name. omega arith

-- The run was not cut short.
abbrev pub Ended : {S A : Type 0} → Run S A → Type 0
Ended out_of_fuel = ⊥
Ended (done a s) = Unit
Ended (raised e s) = Unit
Ended fault = Unit
Ended aborted = Unit

then_pure-Ended :
    {S A B : Type 0} (r : Run S A) (f : A → B) → Ended r → Ended (and_then r (λ a. pure (f a)))
then_pure-Ended (done a s) f e = tt
then_pure-Ended (raised p s) f e = tt
then_pure-Ended fault f e = tt
then_pure-Ended aborted f e = tt
then_pure-Ended out_of_fuel f e = e

module _ {K : Type 0} where
  next_event-Ended :
      (resid : ℕ) (rest : List ℕ → ℕ → Cmd (World K) Items) (x : Option (Value × ℕ × List ℕ))
      (w : World K)
      → Long x
      → ((area : List ℕ) (left : ℕ) → left < suc resid → Ended (rest area left w))
      → Ended (next_event (suc resid) rest x w)
  next_event-Ended resid rest none w long h = tt
  next_event-Ended resid rest (some (event, len, area)) w long h =
      then_pure-Ended (rest area (suc resid - len) w) _ (h area (suc resid - len) (omega arith))

  read_events-Ended :
      (fuel : ℕ) (area : List ℕ) (resid : ℕ) (w : World K)
      → resid ≤ fuel
      → Ended (read_events fuel area resid w)
  unfolding read_events
  read_events-Ended zero area zero w h = tt
  read_events-Ended (suc fuel) area zero w h = tt
  read_events-Ended zero area (suc resid) w h = elim h [ ]
  read_events-Ended (suc fuel) area (suc resid) w h =
      next_event-Ended resid (read_events fuel) (pushevent area) w (pushevent-Long area)
        λ area' left less. read_events-Ended fuel area' left w (omega arith)

  -- Whatever bytes the kernel gives, and whatever lies behind them, the loop over the events ends
  -- within as many rounds as there are bytes.
  pub events_of-Ended : (bs stale : List ℕ) (w : World K) → Ended (events_of (bs, stale) w)
  events_of-Ended bs stale w =
      then_pure-Ended (read_events (length bs) (bs ++ stale) (length bs) w) _
        (read_events-Ended (length bs) (bs ++ stale) (length bs) w (omega arith))
