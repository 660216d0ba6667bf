-- ===== src/Aio/Release.antt =====
-- `l_aiocb_free` of aio/lua_aio.c, the finaliser and closer of a control block.
use flualibs.Common.{ℕ, zero, suc, ◌+◌, Bool, List, [], ◌==◌, ◌&&◌, ◌||◌, if◌then◌else◌}
use flualibs.Lua.{Value, Meta}
use flualibs.Lua.Run.{Cmd, pure, aborted, out_of_fuel, ◌>>=◌, ◌>>◌}
use flualibs.Utils.{setcookie, checkcookienull}
use flualibs.Heap.{free}
use flualibs.Refcount.{refcount_release}
use flualibs.Aio.Defs.{
  pending, state_code, Rcaiocb, AioStore, aio_return, aio_cancel, Answer, result, failed, Kernel,
  aiocb_isshared, aiocb_isvector, load_block, store_block,
}
use flualibs.Aio.Create.{freeiovecs}

unfoldable pub release_buffer : Rcaiocb → Cmd AioStore (Unit {0})
release_buffer r =
    let shared = aiocb_isshared r.cb in
    let vector = aiocb_isvector r.cb in
    if shared && vector
    then freeiovecs r.cb.buf r.cb.nbytes
    else (if shared || vector then free r.cb.buf else pure tt)

module _ (kernel : Kernel) where
  -- The loop at `retry`, at its `n`-th call of `aio_suspend`: another try after EINTR, and the end of
  -- the process after any other failure.
  unfoldable pub wait_suspend : (fuel n : ℕ) → Cmd AioStore (Unit {0})
  wait_suspend zero n = λ s. out_of_fuel
  wait_suspend (suc fuel) n = elim (kernel.suspend n) [
    | result k ↦ pure tt
    | failed e ↦ if e == kernel.eintr then wait_suspend fuel (n + 1) else λ s. aborted
  ]

  -- The switch on the answer of `aio_cancel`.
  abbrev pub cancelled : ℕ → Answer → Cmd AioStore (Unit {0})
  cancelled fuel (failed e) = λ s. aborted
  cancelled fuel (result n) = if n == kernel.aio_notcanceled then wait_suspend fuel 0 else pure tt

  -- Requests that are pending are cancelled or waited for. The status of `aio_return` is ignored.
  unfoldable pub finish : (fuel p : ℕ) → Rcaiocb → Cmd AioStore (Unit {0})
  unfolding wait_suspend
  finish fuel p r =
      if state_code r.state == state_code pending
      then (do
        cancelled fuel (kernel.call (aio_cancel r.cb.fildes p))
        let ignored = kernel.call (aio_return p)
        pure tt)
      else pure tt

  -- What is done with exclusive access.
  unfoldable pub dispose : (fuel : ℕ) → Value → ℕ → Rcaiocb → Cmd AioStore (List Value)
  dispose fuel cb p r = do finish fuel p r; release_buffer r; free p; setcookie cb 0; pure []

  abbrev released : ℕ → Value → ℕ → Rcaiocb → ℕ × Bool → Cmd AioStore (List Value)
  released fuel cb p r (refs, last) = do
    store_block p (record r { refs = refs })
    if last then dispose fuel cb p (record r { refs = refs }) else pure []

  unfoldable pub l_aiocb_free : (fuel : ℕ) → (cb : Value) → Cmd AioStore (List Value)
  l_aiocb_free fuel cb = do
    p ← checkcookienull 1 Meta.aiocb cb
    if p == 0 then pure [] else do
      r ← load_block p
      if aiocb_isshared r.cb
          then released fuel cb p r (refcount_release r.refs)
          else dispose fuel cb p r
