-- ===== src/Aio/Tests.antt =====
-- Concrete control blocks, kernels and states for aio/lua_aio.c.
pub mod Lists
use flualibs.Common.{
  ℕ, suc, ◌+◌, ◌<◌, ◌≡◌, ◌≢◌, refl, Bool, true, false, Option, some, none, List, [], ◌∷◌, arith,
  inl, inr, update, ◌==◌, if◌then◌else◌,
}
use flualibs.Common.Int.{ℤ, pos}
use flualibs.Lua.{Value, Meta, Userdata, Store, item, last, Fields}
use flualibs.Lua.Run.{Api, done, raised, fault, arg_error, ◌>>=◌}
use flualibs.Utils.{success, fail}
use flualibs.Utils.Cookies.{HasCookie}
use flualibs.Aio.Defs.{
  State, uninit, init, pending, Aiocb, Rcaiocb, Obj, block, bytes, AioStore, Call, Answer, result,
  failed, Kernel, aio_read2, aio_return, aio_write2, aio_mlock, aio_cancel,
}
use flualibs.Aio.Submit.{
  l_aio_fsync, l_aio_read, l_aio_write, l_aio_mlock, l_aio_return, l_aio_error,
}
use flualibs.Aio.Release.{wait_suspend, l_aiocb_free}
use flualibs.Aio.Batch.{l_lio_listio}
use flualibs.Aio.Protocol.{Remembers}
use flualibs.Aio.Submission.{
  Open, with_block, submission, l_aio_read-submission, l_aio_fsync-submission,
  l_aio_write-submission, l_aio_mlock-submission,
}
use flualibs.Aio.Returning.{completion, l_aio_return-completion, l_aio_return-read}
use flualibs.Aio.Disposal.{
  LetsGo, idle, waited, emptied, l_aiocb_free-shared, l_aiocb_free-last, wait_suspend-done,
}
use flualibs.Aio.Disposal.Buffers.{Owns, plain, allocated}
use flualibs.Aio.Closing.{l_aiocb_free-twice}
use flualibs.Aio.Listing.Whole.{Outcome, l_lio_listio-Outcome}

abbrev integer_of : Value → Option ℤ
integer_of (Value.integer n) = some n
integer_of v = none

abbrev pub api : Api
api = record {
  to_integer = integer_of;
  to_string = λ v. none;
  strerror = λ e. e ∷ [];
  fileno_errno = 9;
  sequence = λ v. none;
}

-- EINVAL is 22 and EINTR is 4; a return fails with EINPROGRESS (36); two suspends are interrupted.
abbrev answer_to : Call → Answer
answer_to (aio_return p) = failed 36
answer_to (aio_mlock p) = failed 35
answer_to (aio_cancel fd p) = result 1
answer_to call = result 0

abbrev pub kernel : Kernel
kernel = record {
  call = answer_to;
  suspend = λ n. if n == 2 then result 0 else failed 4;
  completed = (0, failed 36);
  aio_notcanceled = 1;
  eintr = 4;
  enomem = 12;
  lio_read = 2;
}

-- A shared block for eight bytes at address 2.
abbrev control : State → Aiocb
control state = record {
  fildes = pos 5;
  offset = pos 0;
  buf = 2;
  nbytes = 8;
  lio_opcode = pos 2;
  sigevent = [];
  is_local = false;
  is_vector = false;
  aio_state = state;
}

abbrev pub counted_block : ℕ → State → State → Rcaiocb
counted_block refs remembered state = record { cb = control remembered; refs = refs; state = state }

abbrev pub cells : Rcaiocb → ℕ → Option Obj
cells r q =
    if q == 1 then some (block r) else (if q == 2 then some (bytes (some 7 ∷ none ∷ [])) else none)

abbrev pub handle : Userdata
handle = record { meta = Meta.aiocb; cookie = Value.light 1; ref = Value.nil; block = none }

-- The block at 1, with two userdata.
abbrev pub state_with : Rcaiocb → AioStore
state_with r = record { cell = cells r; next = 3; uds = handle ∷ handle ∷ [] }

abbrev pub opened : (r : Rcaiocb) → Open (state_with r) 0 1 r
opened r = record {
  handle = record { data_of = handle; at = refl; kind = refl; points = refl };
  ne_null = omega arith;
  at = refl;
}

abbrev pub fresh : Rcaiocb
fresh = counted_block 1 uninit uninit

abbrev ready : Rcaiocb
ready = counted_block 1 init init

l_aio_read-submission_example :
    l_aio_read api kernel (Value.userdata 0) Value.nil (state_with fresh)
    ≡ submission api (state_with fresh) 1 fresh true (result 0)
l_aio_read-submission_example =
    l_aio_read-submission api kernel (opened fresh) Value.nil {n = pos 0} refl refl

l_aio_return-completion_example :
    l_aio_return api kernel (Value.userdata 0) (state_with (counted_block 1 init pending))
    ≡ completion api
        (state_with (counted_block 1 init pending))
        1
        (counted_block 1 init pending)
        true
        (failed 36)
l_aio_return-completion_example =
    l_aio_return-completion api kernel (opened (counted_block 1 init pending))

Remembers-fresh : Remembers fresh
Remembers-fresh = record { same = λ rest. refl; rest = inl refl }

-- A block that is pending, with three references.
abbrev shared_block : Rcaiocb
shared_block = counted_block 3 init pending

abbrev pending_block : Rcaiocb
pending_block = counted_block 1 init pending

interrupted : (i : ℕ) → i < 2 → kernel.suspend (0 + i) ≡ failed 4
interrupted i lt = ground arith

l_aiocb_free-last_example :
    l_aiocb_free kernel 3 (Value.userdata 0) (state_with pending_block)
    ≡ done [] (
        emptied (opened pending_block) (
          update
            (update (cells pending_block) 1 (some (block (counted_block 0 init pending))))
            2
            none))
l_aiocb_free-last_example =
    l_aiocb_free-last kernel 3 (opened pending_block) refl refl
      (waited 2 refl interrupted refl (omega arith)) (plain refl (allocated refl)) refl
