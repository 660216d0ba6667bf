-- ===== src/Aio/Submission.antt =====
-- `l_aio_read`, `l_aio_write`, `l_aio_mlock`, `l_aio_fsync` and `l_aio_return` of aio/lua_aio.c on an
-- open control block: what they answer and what they leave in the store, on every branch.
use flualibs.Common.{
  ℕ, ◌≡◌, ◌≢◌, refl, Bool, true, false, some, List, arith, update, update_same, update-update,
}
use flualibs.Common.Int.{ℤ, pos, to_int}
use flualibs.Lua.{Value, Meta}
use flualibs.Lua.Run.{Run, done, raised, arg_error, Api, checkinteger, optinteger}
use flualibs.Utils.{success, fail}
use flualibs.Utils.Cookies.{HasCookie, checkcookie-done}
use flualibs.Heap.Cells.{load-done, store-done}
use flualibs.Aio.Defs.{
  pending, Rcaiocb, block, AioStore, Call, Answer, result, failed, Kernel, aio_mlock, aio_fsync,
  rcaiocb_trybeginread, rcaiocb_trybeginwrite, load_block, store_block, modify_block,
  rcaiocb_rollback,
}
use flualibs.Aio.Submit.{
  read_call, write_call, submit, submitted, l_aio_read, l_aio_write, l_aio_mlock, l_aio_fsync,
}
use flualibs.Aio.Protocol.{readable, writable, pending_if, trybeginread-eq, trybeginwrite-eq}

-- The userdata `u` has the address `p` of the control block `r`.
pub record Open (s : AioStore) (u p : ℕ) (r : Rcaiocb) : Type 0 where
  pub handle : HasCookie s u Meta.aiocb p
  pub ne_null : p ≢ 0
  pub at : s.cell p ≡ some (block r)

-- The store with another control block at `p`.
abbrev pub with_block : AioStore → ℕ → Rcaiocb → AioStore
with_block s p r = record s { cell = update s.cell p (some (block r)) }

module _ (s : AioStore) {p : ℕ} {r : Rcaiocb} (ne : p ≢ 0) (at : s.cell p ≡ some (block r)) where
  pub load_block-done : load_block p s ≡ done r s
  unfolding load_block
  load_block-done = ground (arith, load-done p s ne at)

  pub store_block-done : (v : Rcaiocb) → store_block p v s ≡ done tt (with_block s p v)
  store_block-done v = store-done p s ne at (block v)

  -- Writing what is there changes nothing.
  pub with_block-same : with_block s p r ≡ s
  with_block-same = λ i. record s { cell = update_same s.cell p at i }

-- The last of two writes stays.
pub with_block-with_block :
    (s : AioStore) (p : ℕ) (v w : Rcaiocb) → with_block (with_block s p v) p w ≡ with_block s p w
with_block-with_block s p v w =
    λ i. record s { cell = update-update s.cell p (some (block v)) (some (block w)) i }

-- A change of the block at `p`.
pub modify_block-done :
    (s : AioStore) {p : ℕ} {r : Rcaiocb} (f : Rcaiocb → Rcaiocb)
    → p ≢ 0
    → s.cell p ≡ some (block r)
    → modify_block p f s ≡ done tt (with_block s p (f r))
modify_block-done s f ne at = rw (load_block-done s ne at) (store_block-done s ne at (f _))

pub with_block-at :
    (s : AioStore) (p : ℕ) (v : Rcaiocb) → (with_block s p v).cell p ≡ some (block v)
with_block-at s p v = ground arith

unfoldable pub Open-with_block :
    {s : AioStore} {u p : ℕ} {r : Rcaiocb} (v : Rcaiocb)
    → Open s u p r
    → Open (with_block s p v) u p v
Open-with_block {s} {p = p} v h = record {
  handle = record {
    data_of = h.handle.data_of;
    at = h.handle.at;
    kind = h.handle.kind;
    points = h.handle.points;
  };
  ne_null = h.ne_null;
  at = with_block-at s p v;
}

-- What a submission gives: `free` says whether the state admits it, then the answer of the kernel.
abbrev pub submission : Api → AioStore → ℕ → Rcaiocb → Bool → Answer → Run AioStore (List Value)
submission api s p r true (result n) = done success (with_block s p (record r { state = pending }))
submission api s p r true (failed e) = done (fail api e) s
submission api s p r false answer = raised (arg_error 1 "buffer not available") s

module _ (api : Api) (kernel : Kernel) (s : AioStore) {p : ℕ} {r : Rcaiocb} (ne : p ≢ 0)
    (at : s.cell p ≡ some (block r)) where
  submitted-lem :
      (answer : Answer)
      → submitted api kernel p r.state answer (with_block s p (record r { state = pending }))
        ≡ submission api s p r true answer
  unfolding rcaiocb_rollback
  submitted-lem (result n) = refl
  submitted-lem (failed e) = rw (
    modify_block-done (with_block s p (record r { state = pending }))
        (λ v. rcaiocb_rollback v r.state) ne (with_block-at s p (record r { state = pending })),
    with_block-with_block s p (record r { state = pending }) r,
    with_block-same s ne at,
  )

  -- `submit` after a `trybegin` that succeeded or changed nothing.
  submit-submission :
      (ok : Bool) (c : Call)
      → submit api kernel p "buffer not available" (ok, pending_if ok r, r.state) c s
        ≡ submission api s p r ok (kernel.call c)
  submit-submission true c =
      rw (store_block-done s ne at (record r { state = pending })) (submitted-lem (kernel.call c))
  submit-submission false c = rw (store_block-done s ne at r, with_block-same s ne at)

  submit-read :
      (c : Call)
      → submit api kernel p "buffer not available" (rcaiocb_trybeginread r) c s
        ≡ submission api s p r (readable r.state) (kernel.call c)
  submit-read c = rw (trybeginread-eq r) (submit-submission (readable r.state) c)

  submit-write :
      (c : Call)
      → submit api kernel p "buffer not available" (rcaiocb_trybeginwrite r) c s
        ≡ submission api s p r (writable r.state) (kernel.call c)
  submit-write c = rw (trybeginwrite-eq r) (submit-submission (writable r.state) c)

module _ (api : Api) (kernel : Kernel) {s : AioStore} {u p : ℕ} {r : Rcaiocb}
    (h : Open s u p r) where
  open h use {handle, ne_null, at}

  -- `cb:read(flags)` on a shared block is admitted exactly in the states UNINIT and INIT. If the kernel
  -- takes the request, the block is pending; if it does not, the store is as before and the errno is
  -- returned. In other states it is an argument error that changes nothing.
  pub l_aio_read-submission :
      (flags : Value) {n : ℤ}
      → optinteger api 2 flags (pos 0) s ≡ done n s
      → r.cb.is_local ≡ false
      → l_aio_read api kernel (Value.userdata u) flags s
        ≡ submission api s p r (readable r.state) (kernel.call (read_call p r.cb.is_vector n))
  unfolding l_aio_read
  l_aio_read-submission flags {n} given shared =
      rw (checkcookie-done handle 1 ne_null, given, load_block-done s ne_null at)
        (simp shared (submit-read api kernel s ne_null at (read_call p r.cb.is_vector n)))

  -- `cb:write(flags)` is admitted exactly in the state INIT, whether the block is shared or not. If the
  -- kernel takes the request, the block is pending; if it does not, the store is as before and the
  -- errno is returned. In other states it is an argument error that changes nothing.
  pub l_aio_write-submission :
      (flags : Value) {n : ℤ}
      → optinteger api 2 flags (pos 0) s ≡ done n s
      → l_aio_write api kernel (Value.userdata u) flags s
        ≡ submission api s p r (writable r.state) (kernel.call (write_call p r.cb.is_vector n))
  unfolding l_aio_write
  l_aio_write-submission flags {n} given =
      rw (checkcookie-done handle 1 ne_null, given, load_block-done s ne_null at)
        (submit-write api kernel s ne_null at (write_call p r.cb.is_vector n))

  -- `cb:mlock()` has the guards, the results and the rollback of a write.
  pub l_aio_mlock-submission :
      l_aio_mlock api kernel (Value.userdata u) s
      ≡ submission api s p r (writable r.state) (kernel.call (aio_mlock p))
  unfolding l_aio_mlock
  l_aio_mlock-submission =
      rw (checkcookie-done handle 1 ne_null, load_block-done s ne_null at)
        (submit-write api kernel s ne_null at (aio_mlock p))

  -- `cb:fsync(op)` with an integer `op` has the guards, the results and the rollback of a write.
  pub l_aio_fsync-submission :
      (op : Value) {n : ℤ}
      → checkinteger api 2 op s ≡ done n s
      → l_aio_fsync api kernel (Value.userdata u) op s
        ≡ submission api s p r (writable r.state) (kernel.call (aio_fsync (to_int n) p))
  unfolding l_aio_fsync
  l_aio_fsync-submission op {n} given =
      rw (checkcookie-done handle 1 ne_null, given, load_block-done s ne_null at)
        (submit-write api kernel s ne_null at (aio_fsync (to_int n) p))
