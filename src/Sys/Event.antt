-- ===== src/Sys/Event.antt =====
-- sys/event/lua_event.c: kernel queues behind userdata, whose block holds the descriptor, -1 once
-- it is closed.
pub mod Changes
pub mod Tests
use flualibs.Common.{
  ℕ, zero, suc, ◌+◌, Bool, false, Option, none, some, String, List, [], ◌∷◌, ◌++◌, ◌==◌,
  if◌then◌else◌, ltb, length, replicate, get_elem?, set,
}
use flualibs.Common.Int.{ℤ, pos, negsuc, to_word, of_word, to_int}
use flualibs.Lua.{
  Value, Items, last, item, length_items, Fields, field, end, getfield, Meta, Userdata, Store,
}
use flualibs.Lua.Run.{
  Cmd, done, fault, arg_error, error, pure, raise, undefined, Api, checkinteger, optinteger, ◌>>=◌,
  ◌>>◌,
}
use flualibs.Utils.{success, fail, fatal, checkudata}
use flualibs.Heap.{alloc, load, store}
use flualibs.Sys.{Answer, result, failed, answered}

-- A `struct kevent`; `udata` is a Lua thread, or 0.
pub record Kevent : Type 0 where
  pub ident : ℕ
  pub filter : ℤ
  pub flags : ℕ
  pub fflags : ℕ
  pub payload : ℤ
  pub udata : ℕ

-- Memory holds lists of changes, of which none were not written yet.
abbrev pub Queue : Type 0
Queue = Store (List (Option Kevent))

-- What a wait for one event ends with: the event, -1 and an errno, or another number of events.
pub data Polled : Type 0 where
  event : Kevent → Polled
  unpolled : ℕ → Polled
  miscounted : Polled

pub record Kernel : Type 0 where
  pub kqueuex : ℕ → Answer ℤ
  pub kevent : ℤ → List (Option Kevent) → Polled
  pub close : ℤ → Answer (Unit {0})

abbrev pub invalid : {A : Type 0} → String → Cmd Queue A
invalid what = raise (arg_error 2 what)

-- `lua_tointeger` of a number; one that is no integer gives 0.
abbrev number_value : Option ℤ → ℤ
number_value none = pos 0
number_value (some n) = n

-- A field that must be a number: INTFIELD.
abbrev number : String → Value → Cmd Queue ℤ
number what (Value.integer n) = pure n
number what (Value.float n) = pure (number_value n)
number what v = invalid what

-- A field that may be missing: OPTINTFIELD.
abbrev optional : String → Value → Cmd Queue ℤ
optional what Value.nil = pure (pos 0)
optional what (Value.integer n) = pure n
optional what v = invalid what

-- A pointer under "cookie", or a number under "ident".
abbrev identity : Value → Value → Cmd Queue ℕ
identity (Value.light p) v = pure p
identity cookie v = do n ← number "`changelist' invalid ident" v; pure (to_word 64 n)

abbrev coroutine : Value → Cmd Queue ℕ
coroutine Value.nil = pure 0
coroutine (Value.thread l) = pure l
coroutine v = invalid "`changelist' invalid udata"

-- One element of the list of changes.
unfoldable pub change : Value → Cmd Queue Kevent
change (Value.table vs fs) = do
  ident ← identity (getfield fs "cookie") (getfield fs "ident")
  filter ← number "`changelist' invalid filter" (getfield fs "filter")
  flags ← number "`changelist' invalid flags" (getfield fs "flags")
  fflags ← optional "`changelist' invalid fflags" (getfield fs "fflags")
  payload ← optional "`changelist' invalid data" (getfield fs "data")
  udata ← coroutine (getfield fs "udata")
  pure (record {
    ident = ident;
    filter = of_word 16 (to_word 16 filter);
    flags = to_word 16 flags;
    fflags = to_word 32 fflags;
    payload = payload;
    udata = udata;
  })
change v = invalid "`changelist' invalid"

-- `EV_SET(&changelist[i], ...)`.
unfoldable pub set_change : (changelist i : ℕ) → Kevent → Cmd Queue (Unit {0})
set_change changelist i e = do
  changes ← load changelist
  if ltb i (length changes) then store changelist (set changes i (some e)) else undefined

-- The loop over the list of changes, from element `i` on.
unfoldable pub fill_changes : (changelist i : ℕ) → Items → Cmd Queue (Unit {0})
unfolding change set_change
fill_changes changelist i last = pure tt
fill_changes changelist i (item v vs) = do
  e ← change v
  set_change changelist i e
  fill_changes changelist (i + 1) vs

abbrev thread_field : ℕ → Fields
thread_field udata = if udata == 0 then end else field "udata" (Value.thread udata) end

abbrev event_table : Kevent → Value
event_table e = Value.table last (
    field "ident" (Value.integer (of_word 64 e.ident)) (
      field "cookie" (Value.light e.ident) (
        field "filter" (Value.integer e.filter) (
          field "flags" (Value.integer (pos e.flags)) (
            field "fflags" (Value.integer (pos e.fflags))
              (field "data" (Value.integer e.payload) (thread_field e.udata)))))))

-- `*kqp = kq`.
unfoldable pub set_kq : ℕ → ℤ → Cmd Queue (Unit {0})
set_kq u kq s = elim (get_elem? s.uds u) [
  | none ↦ fault
  | some d ↦ done tt (record s { uds = set s.uds u (record d { block = some kq }) })
]

abbrev kq_in : Option ℤ → ℤ
kq_in none = negsuc 0
kq_in (some kq) = kq

abbrev is_closed : ℤ → Bool
is_closed (pos n) = false
is_closed (negsuc n) = n == 0

abbrev checkkq : Value → Cmd Queue (ℕ × ℤ)
checkkq v = do (u, d) ← checkudata 1 Meta.kqueue v; pure (u, kq_in d.block)

abbrev new_kqueue : ℤ → Cmd Queue (List Value)
new_kqueue kq s = done (Value.userdata (length s.uds) ∷ []) (record s {
  uds =
      s.uds
      ++ record { meta = Meta.kqueue; cookie = Value.nil; ref = Value.nil; block = some kq } ∷ [];
})

module _ (api : Api) (kernel : Kernel) (oom : ℕ → Bool) (enomem : ℕ) where
  -- A userdata for a queue that could not be made has no metatable, and nobody gets it.
  unfoldable pub l_kqueue : Value → Cmd Queue (List Value)
  l_kqueue opt = do
    flags ← optinteger api 1 opt (pos 0)
    answered api (kernel.kqueuex (to_word 32 flags)) new_kqueue

  unfoldable pub l_wrap : Value → Cmd Queue (List Value)
  l_wrap v = do kq ← checkinteger api 1 v; new_kqueue (to_int kq)

  abbrev pub polled : Polled → Cmd Queue (List Value)
  polled (event e) = pure (event_table e ∷ [])
  polled (unpolled e) = pure (fail api e)
  polled miscounted = raise (error "kevent failed spectacularly")

  abbrev pub changelist_at : Value → Cmd Queue (List (Option Kevent))
  changelist_at Value.absent = pure []
  changelist_at Value.nil = pure []
  changelist_at (Value.table vs fs) = do
    changelist ← alloc oom (replicate (length_items vs) none)
    if changelist == 0
        then fatal "malloc" enomem
        else do fill_changes changelist 0 vs; load changelist
  changelist_at v = invalid "`changelist' expected"

  unfoldable pub l_kevent : (v w : Value) → Cmd Queue (List Value)
  unfolding fill_changes
  l_kevent v w = do
    (u, kq) ← checkkq v
    changes ← changelist_at w
    polled (kernel.kevent kq changes)

  -- What close and the finaliser do with a queue that is open.
  abbrev close_open : ℕ → ℤ → Answer (Unit {0}) → Cmd Queue (List Value)
  close_open u kq (failed e) = pure (fail api e)
  close_open u kq (result a) = do set_kq u (negsuc 0); pure success

  unfoldable pub l_close : Value → Cmd Queue (List Value)
  unfolding set_kq
  l_close v = do
    (u, kq) ← checkkq v
    if is_closed kq then pure [] else close_open u kq (kernel.close kq)

  unfoldable pub l_fileno : Value → Cmd Queue (List Value)
  l_fileno v = do
    (u, kq) ← checkkq v
    if is_closed kq then pure [] else pure (Value.integer kq ∷ [])

  abbrev ignored : Answer (Unit {0}) → Cmd Queue (Unit {0})
  ignored a = pure tt

  -- The answer of the kernel is ignored.
  unfoldable pub l_gc : Value → Cmd Queue (List Value)
  unfolding set_kq
  l_gc v = do
    (u, kq) ← checkkq v
    if is_closed kq then pure [] else (do ignored (kernel.close kq); set_kq u (negsuc 0); pure [])
