-- ===== src/Aio/Defs.antt =====
-- The control block, its states and the atomic operations on them, and what the kernel answers.
use flualibs.Common.{ℕ, Bool, true, false, Option, List, if◌then◌else◌, ◌==◌, not}
use flualibs.Common.Int.{ℤ}
use flualibs.Lua.Run.{Cmd, pure, undefined, ◌>>=◌}
use flualibs.Lua.{Store}
use flualibs.Heap.{load, store}
use flualibs.Signal.{Sigevent}

-- enum aiocb_state.
pub data State : Type 0 where
  uninit init pending returning : State

abbrev pub state_code : State → ℕ
state_code uninit = 0
state_code init = 1
state_code pending = 2
state_code returning = 3

-- `struct aiocb`, as far as the module reads it. `aio_state` is the spare field that holds the state
-- to restore; `is_local` and `is_vector` are the bits CB_LOCAL and CB_VECTOR of `aio_flags`. `buf` is
-- `aio_buf` or `aio_iov`, and `nbytes` is `aio_nbytes` or `aio_iovcnt`, which share memory.
pub record Aiocb : Type 0 where
  pub fildes : ℤ
  pub offset : ℤ
  pub buf : ℕ
  pub nbytes : ℕ
  pub lio_opcode : ℤ
  pub sigevent : Sigevent
  pub is_local : Bool
  pub is_vector : Bool
  pub aio_state : State

pub record Rcaiocb : Type 0 where
  pub cb : Aiocb
  pub refs : ℕ
  pub state : State

-- What the module puts on the heap: a control block, the bytes of a buffer (none where the memory is
-- not initialised), and an array of base and length. `memory` is freshly zeroed or owned by others.
pub data Obj : Type 0 where
  block : Rcaiocb → Obj
  bytes : List (Option ℕ) → Obj
  iovecs : List (ℕ × ℕ) → Obj

abbrev pub AioStore : Type 0
AioStore = Store Obj

-- The system calls of the module, and what they answer: a result, or an errno after -1.
pub data Call : Type 0 where
  aio_read2 aio_write2 : ℕ → ℤ → Call
  aio_readv aio_writev aio_mlock aio_return aio_error : ℕ → Call
  aio_fsync : ℤ → ℕ → Call
  aio_cancel : ℤ → ℕ → Call
  lio_listio : ℤ → List ℕ → Option Sigevent → Call

pub data Answer : Type 0 where
  result : ℕ → Answer
  failed : ℕ → Answer

-- The kernel as the module sees it: its answer to a call, its answers to the repeated `aio_suspend` of
-- a release, the block that `aio_waitcomplete` stores (0 if it stores none) with its answer, and the
-- constants.
pub record Kernel : Type 0 where
  pub call : Call → Answer
  pub suspend : ℕ → Answer
  pub completed : ℕ × Answer
  pub aio_notcanceled : ℕ
  pub eintr : ℕ
  pub enomem : ℕ
  pub lio_read : ℕ

-- `atomic_compare_exchange_strong`: whether it stored, the value of the object, and the value that is
-- left in `*expected`.
abbrev pub compare_exchange : State → State → State → Bool × State × State
compare_exchange current expected desired =
    if state_code current == state_code expected
    then (true, desired, expected)
    else (false, current, current)

-- The results of a `trybegin` function: its value, the control block after it, and `*state`.
abbrev pub Begun : Type 0
Begun = Bool × Rcaiocb × State

abbrev begun : Rcaiocb → Bool × State × State → Begun
begun r (ok, current, expected) = (ok, record r { state = current }, expected)

unfoldable pub rcaiocb_trybeginwrite : Rcaiocb → Begun
rcaiocb_trybeginwrite r = begun r (compare_exchange r.state init pending)

abbrev or_else : Begun → (Rcaiocb → Begun) → Begun
or_else (true, r, state) next = (true, r, state)
or_else (false, r, state) next = next r

unfoldable pub rcaiocb_trybeginread : Rcaiocb → Begun
unfolding rcaiocb_trybeginwrite
rcaiocb_trybeginread r =
    or_else (begun r (compare_exchange r.state uninit pending)) rcaiocb_trybeginwrite

unfoldable pub rcaiocb_trybeginreturn : Rcaiocb → Begun
rcaiocb_trybeginreturn r = begun r (compare_exchange r.state pending returning)

unfoldable pub rcaiocb_rollback : Rcaiocb → State → Rcaiocb
rcaiocb_rollback r state = record r { state = state }

unfoldable pub rcaiocb_commit : Rcaiocb → Rcaiocb
rcaiocb_commit r = record r { cb = record (r.cb) { aio_state = init }; state = init }

abbrev pub aiocb_islocal : Aiocb → Bool
aiocb_islocal cb = cb.is_local

abbrev pub aiocb_isshared : Aiocb → Bool
aiocb_isshared cb = not cb.is_local

abbrev pub aiocb_isvector : Aiocb → Bool
aiocb_isvector cb = cb.is_vector

-- `*rccb`, undefined where the memory does not hold a control block.
abbrev as_block : Obj → Cmd AioStore Rcaiocb
as_block (block r) = pure r
as_block (bytes bs) = undefined
as_block (iovecs vs) = undefined

unfoldable pub load_block : ℕ → Cmd AioStore Rcaiocb
load_block p = do o ← load p; as_block o

abbrev pub store_block : ℕ → Rcaiocb → Cmd AioStore (Unit {0})
store_block p r = store p (block r)

abbrev pub modify_block : ℕ → (Rcaiocb → Rcaiocb) → Cmd AioStore (Unit {0})
modify_block p f = do r ← load_block p; store_block p (f r)
