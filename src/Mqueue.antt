-- ===== src/Mqueue.antt =====
-- mqueue/lua_mqueue.c: message queues behind userdata, whose block holds the descriptor, or -1. A
-- descriptor is its number.
pub mod Closing
pub mod Opening
pub mod Tests
use flualibs.Common.{
  ℕ, zero, suc, ◌-◌, Bool, true, false, not, Option, none, some, String, List, [], ◌∷◌, ◌++◌, ◌==◌,
  length, replicate, get_elem?, set, if◌then◌else◌,
}
use flualibs.Common.Int.{ℤ, pos, negsuc, to_word, to_int}
use flualibs.Lua.{Value, Items, last, Fields, field, end, getfield, value_at, Meta, Userdata, Store}
use flualibs.Lua.Run.{
  Cmd, done, fault, error, pure, raise, undefined, Api, checkinteger, optinteger, checkstring,
  ◌>>=◌, ◌>>◌,
}
use flualibs.Lua.Stack.{take, top_values}
use flualibs.Utils.{success, fail, fatal, checkudata}
use flualibs.Heap.{alloc, free}
use flualibs.Signal.{Sigevent, checksigevent}
use flualibs.Sys.{Answer, result, failed, answered}

-- Memory holds the buffers for messages, by their sizes.
abbrev pub Queues : Type 0
Queues = Store ℕ

-- The calls on message queues, each made at most once in a function.
pub record Kernel : Type 0 where
  -- The flags, the mode and the attributes, where they are given.
  pub mq_open : List ℕ → ℤ → Option ℕ → Option (ℤ × ℤ) → Answer ℤ
  pub mq_close : ℤ → Answer (Unit {0})
  pub mq_unlink : List ℕ → Answer (Unit {0})
  pub mq_getattr : ℤ → Answer (ℤ × ℤ × ℤ × ℤ)
  pub mq_setattr : ℤ → ℤ → Answer (Unit {0})
  pub mq_notify : ℤ → Option Sigevent → Answer (Unit {0})
  pub mq_send : ℤ → List ℕ → ℕ → Option (ℤ × ℤ) → Answer (Unit {0})
  -- The message and its priority.
  pub mq_receive : ℤ → ℕ → Option (ℤ × ℤ) → Answer (List ℕ × ℕ)
  pub mq_getfd_np : ℤ → ℤ

-- The descriptor in the block of a userdata; what is no descriptor cannot stand there.
abbrev mqd_in : Option ℤ → ℤ
mqd_in none = negsuc 0
mqd_in (some mq) = mq

-- `*mqp = mq`.
unfoldable pub set_block : ℕ → ℤ → Cmd Queues (Unit {0})
set_block u mq s = elim (get_elem? s.uds u) [
  | none ↦ fault
  | some d ↦ done tt (record s { uds = set s.uds u (record d { block = some mq }) })
]

abbrev is_closed : ℤ → Bool
is_closed (pos n) = false
is_closed (negsuc n) = n == 0

abbrev succeed : Unit {0} → Cmd Queues (List Value)
succeed u = pure success

-- `lua_settop` and `lua_pop`, which is `lua_settop(L, -n - 1)`.
unfoldable pub settop : ℕ → List Value → List Value
settop n stack = take n stack ++ replicate (n - length stack) Value.nil

unfoldable pub lua_pop : ℤ → List Value → List Value
unfolding settop
lua_pop (pos n) stack = take (length stack - n) stack
lua_pop (negsuc n) stack = settop n stack

-- What the library takes from Lua's metatables, from the conversion of a number to a `long`, and
-- from the value of O_CREAT: the value that a key gives in what is no table (none if there is an
-- error).
pub record Machine : Type 0 where
  pub index_meta : Value → String → Option Value
  pub to_long : Value → ℤ
  pub has_creat : ℤ → Bool

module _ (api : Api) (machine : Machine) (kernel : Kernel) (oom : ℕ → Bool) (enomem : ℕ) where
  abbrev index_other : Option Value → Cmd Queues Value
  index_other none = raise (error "attempt to index")
  index_other (some v) = pure v

  -- `lua_gettable` with a string on the top.
  abbrev pub gettable : Value → String → Cmd Queues Value
  gettable (Value.table vs fs) k = pure (getfield fs k)
  gettable v k = index_other (machine.index_meta v k)

  -- A field of the attributes is read, and the stack is popped.
  abbrev pub attribute : String → List Value → Cmd Queues (ℤ × List Value)
  attribute k stack = do
    v ← gettable (value_at 4 stack) k
    pure (machine.to_long v, lua_pop (negsuc 0) (stack ++ v ∷ []))

  abbrev pub opened : ℕ → List Value → Answer ℤ → Cmd Queues (List Value)
  opened u stack (failed e) = pure (fail api e)
  opened u stack (result mq) = do set_block u mq; pure (top_values 1 stack)

  abbrev pub open_with_mode : ℕ → List ℕ → ℤ → ℕ → List Value → Cmd Queues (List Value)
  open_with_mode u name oflag mode stack =
      if length stack == 5
      then (do
        (maxmsg, stack') ← attribute "maxmsg" stack
        (msgsize, stack'') ← attribute "msgsize" stack'
        opened u stack'' (kernel.mq_open name oflag (some mode) (some (maxmsg, msgsize))))
      else opened u stack (kernel.mq_open name oflag (some mode) none)

  abbrev pub new_mqd : Cmd Queues ℕ
  new_mqd s = done (length s.uds) (record s {
    uds =
        s.uds
        ++ record { meta = Meta.mqd; cookie = Value.nil; ref = Value.nil; block = some (negsuc 0) }
          ∷ [];
  })

  -- The new userdata stands above the arguments.
  unfoldable pub l_mq_open : List Value → Cmd Queues (List Value)
  unfolding lua_pop set_block
  l_mq_open args = do
    u ← new_mqd
    let stack = args ++ Value.userdata u ∷ []
    name ← checkstring api 1 (value_at 1 stack)
    oflag ← checkinteger api 2 (value_at 2 stack)
    if machine.has_creat (to_int oflag)
        then (do
          mode ← checkinteger api 3 (value_at 3 stack)
          open_with_mode u name (to_int oflag) (to_word 16 mode) stack)
        else opened u stack (kernel.mq_open name (to_int oflag) none none)

  abbrev checkmqd : Value → Cmd Queues (ℕ × ℤ)
  checkmqd v = do (u, d) ← checkudata 1 Meta.mqd v; pure (u, mqd_in d.block)

  unfoldable pub l_mq_close : Value → Cmd Queues (List Value)
  unfolding set_block
  l_mq_close v = do
    (u, mq) ← checkmqd v
    set_block u (negsuc 0)
    answered api (kernel.mq_close mq) succeed

  unfoldable pub l_mq_gc : Value → Cmd Queues (List Value)
  unfolding set_block
  l_mq_gc v = do
    (u, mq) ← checkmqd v
    if is_closed mq
        then pure []
        else (do set_block u (negsuc 0); answered api (kernel.mq_close mq) (λ a. pure []))

  unfoldable pub l_mq_unlink : Value → Cmd Queues (List Value)
  l_mq_unlink v = do name ← checkstring api 1 v; answered api (kernel.mq_unlink name) succeed

  abbrev attr_table : ℤ × ℤ × ℤ × ℤ → List Value
  attr_table (flags, maxmsg, msgsize, curmsgs) =
      Value.table last (
        field "flags" (Value.integer flags) (
          field "maxmsg" (Value.integer maxmsg) (
            field "msgsize" (Value.integer msgsize) (field "curmsgs" (Value.integer curmsgs) end))))
      ∷ []

  unfoldable pub l_mq_getattr : Value → Cmd Queues (List Value)
  l_mq_getattr v = do
    (u, mq) ← checkmqd v
    answered api (kernel.mq_getattr mq) (λ attr. pure (attr_table attr))

  unfoldable pub l_mq_setattr : (v n : Value) → Cmd Queues (List Value)
  l_mq_setattr v n = do
    (u, mq) ← checkmqd v
    flags ← checkinteger api 2 n
    answered api (kernel.mq_setattr mq flags) succeed

  abbrev notification : Value → Cmd Queues (Option Sigevent)
  notification Value.absent = pure none
  notification Value.nil = pure none
  notification v = do e ← checksigevent api 2 v; pure (some e)

  unfoldable pub l_mq_notify : (v e : Value) → Cmd Queues (List Value)
  l_mq_notify v e = do
    (u, mq) ← checkmqd v
    sigevent ← notification e
    answered api (kernel.mq_notify mq sigevent) succeed

  unfoldable pub l_mq_send : (v str p : Value) → Cmd Queues (List Value)
  l_mq_send v str p = do
    (u, mq) ← checkmqd v
    msg ← checkstring api 2 str
    prio ← checkinteger api 3 p
    answered api (kernel.mq_send mq msg (to_word 32 prio) none) succeed

  unfoldable pub l_mq_timedsend : (v str p sec nsec : Value) → Cmd Queues (List Value)
  l_mq_timedsend v str p sec nsec = do
    (u, mq) ← checkmqd v
    msg ← checkstring api 2 str
    prio ← checkinteger api 3 p
    tv_sec ← checkinteger api 4 sec
    tv_nsec ← optinteger api 5 nsec (pos 0)
    answered api (kernel.mq_send mq msg (to_word 32 prio) (some (tv_sec, tv_nsec))) succeed

  -- What receive and timedreceive do with the answer; the buffer is freed after an error.
  abbrev pub received : ℕ → Answer (List ℕ × ℕ) → Cmd Queues (List Value)
  received buf (failed e) = do free buf; pure (fail api e)
  received buf (result (msg, prio)) = pure (Value.string msg ∷ Value.integer (pos prio) ∷ [])

  abbrev pub receive : ℤ → ℕ → Option (ℤ × ℤ) → Cmd Queues (List Value)
  receive mq buflen timeout = do
    buf ← alloc oom buflen
    if buf == 0 then fatal "malloc" enomem else received buf (kernel.mq_receive mq buflen timeout)

  unfoldable pub l_mq_receive : (v n : Value) → Cmd Queues (List Value)
  l_mq_receive v n = do
    (u, mq) ← checkmqd v
    buflen ← checkinteger api 2 n
    receive mq (to_word 64 buflen) none

  unfoldable pub l_mq_timedreceive : (v n sec nsec : Value) → Cmd Queues (List Value)
  l_mq_timedreceive v n sec nsec = do
    (u, mq) ← checkmqd v
    buflen ← checkinteger api 2 n
    tv_sec ← checkinteger api 3 sec
    tv_nsec ← optinteger api 4 nsec (pos 0)
    receive mq (to_word 64 buflen) (some (tv_sec, tv_nsec))

  unfoldable pub l_mq_getfd_np : Value → Cmd Queues (List Value)
  l_mq_getfd_np v = do (u, mq) ← checkmqd v; pure (Value.integer (kernel.mq_getfd_np mq) ∷ [])
