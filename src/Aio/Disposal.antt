-- ===== src/Aio/Disposal.antt =====
-- `l_aiocb_free` of aio/lua_aio.c: a release that is not the last, the last one, and the loop that
-- waits for a request which cannot be cancelled.
pub mod Buffers
use flualibs.Common.{
  ℕ, zero, suc, ◌+◌, ◌-◌, ◌<◌, ◌≤◌, ◌^◌, ◌≡◌, ◌≢◌, refl, inl, inr, Bool, true, false, some, none,
  Option, List, [], arith, ap, ◌∙◌, update, set, ◌==◌, ==-ne, ==-refl,
}
use flualibs.Lua.{Value, Userdata, Store}
use flualibs.Lua.Run.{Run, done}
use flualibs.Utils.{setcookie}
use flualibs.Utils.Cookies.{checkcookienull-done, setcookie-done}
use flualibs.Heap.{free}
use flualibs.Heap.Cells.{free-done}
use flualibs.Refcount.{refcount_release}
use flualibs.Aio.Defs.{
  uninit, init, pending, returning, Rcaiocb, Obj, block, bytes, AioStore, aio_cancel, Answer,
  result, failed, Kernel, load_block, store_block,
}
use flualibs.Aio.Release.{wait_suspend, finish, release_buffer, dispose, l_aiocb_free}
use flualibs.Aio.Protocol.{AtRest}
use Buffers.{Owns, release_buffer-freed}
use flualibs.Aio.Submission.{
  Open, Open-with_block, with_block, load_block-done, store_block-done, with_block-at,
}

module _ (kernel : Kernel) where
  -- With more fuel than interruptions the loop ends, and leaves the store as it is.
  pub wait_suspend-done :
      (fuel n k : ℕ) {m : ℕ} (s : AioStore)
      → ((i : ℕ) → i < k → kernel.suspend (n + i) ≡ failed kernel.eintr)
      → kernel.suspend (n + k) ≡ result m
      → k < fuel
      → wait_suspend kernel fuel n s ≡ done tt s
  unfolding wait_suspend
  wait_suspend-done zero n k s busy over enough = absurd (omega arith)
  wait_suspend-done (suc fuel) n zero s busy over enough =
      let z : n ≡ n + 0 = omega arith in
      let e : kernel.suspend n ≡ _ = ap kernel.suspend z ∙ over in ground arith
  wait_suspend-done (suc fuel) n (suc k) s busy over enough =
      let z : n ≡ n + 0 = omega arith in
      let e : kernel.suspend n ≡ failed kernel.eintr = ap kernel.suspend z ∙ busy 0 (omega arith) in
      let shift : (i : ℕ) → n + 1 + i ≡ n + suc i = λ i. omega arith in
      let rest : wait_suspend kernel fuel (n + 1) s ≡ done tt s =
        wait_suspend-done fuel (n + 1) k s
          (λ i lt. ap kernel.suspend (shift i) ∙ busy (suc i) (omega arith))
          (ap kernel.suspend (shift k) ∙ over) (omega arith) in
      ground (arith, rest)

-- How the kernel lets go of a block: nothing is pending, `aio_cancel` leaves nothing to wait for, or
-- the `k`-th interruption of `aio_suspend` is the last.
pub data LetsGo (kernel : Kernel) (fuel p : ℕ) (r : Rcaiocb) : Type 0 where
  idle : AtRest r.state → LetsGo kernel fuel p r
  cancelled_all :
      (n : ℕ)
      → kernel.call (aio_cancel r.cb.fildes p) ≡ result n
      → n ≢ kernel.aio_notcanceled
      → LetsGo kernel fuel p r
  waited :
      (k : ℕ) {m : ℕ}
      → kernel.call (aio_cancel r.cb.fildes p) ≡ result kernel.aio_notcanceled
      → ((i : ℕ) → i < k → kernel.suspend (0 + i) ≡ failed kernel.eintr)
      → kernel.suspend (0 + k) ≡ result m
      → k < fuel
      → LetsGo kernel fuel p r

pub finish-done :
    (kernel : Kernel) (fuel p : ℕ) (r : Rcaiocb) (s : AioStore)
    → LetsGo kernel fuel p r
    → finish kernel fuel p r s ≡ done tt s
unfolding finish
finish-done kernel fuel p r s (idle rest) = ground arith
finish-done kernel fuel p r s (cancelled_all n called ne) = ground arith
finish-done kernel fuel p r s (waited k called busy over enough) =
    ground (arith, wait_suspend-done kernel fuel 0 k s busy over enough)

-- The store less the block at `p` and its buffer, with NULL in the userdata.
abbrev pub emptied :
    {s : AioStore} {u p : ℕ} {r : Rcaiocb} → Open s u p r → (ℕ → Option Obj) → AioStore
emptied {s} {u} {p} h c = record s {
  cell = update c p none;
  uds = set s.uds u (record (h.handle.data_of) { cookie = Value.light 0 });
}

pub dispose-done :
    (kernel : Kernel) (fuel : ℕ) {s : AioStore} {u p : ℕ} {r : Rcaiocb} (h : Open s u p r)
    {c : ℕ → Option Obj} {o : Obj}
    → r.cb.is_local ≡ false
    → LetsGo kernel fuel p r
    → Owns s.cell r.cb c
    → c p ≡ some o
    → dispose kernel fuel (Value.userdata u) p r s ≡ done [] (emptied h c)
unfolding dispose
dispose-done kernel fuel {s} {u} {p} {r} h {c} shared lets_go owns still = rw (
  finish-done kernel fuel p r s lets_go,
  release_buffer-freed s r shared owns,
  free-done p (record s { cell = c }) h.ne_null still,
  setcookie-done (record s { cell = update c p none }) u 0 h.handle.at,
)

module _ (kernel : Kernel) (fuel : ℕ) {s : AioStore} {u p : ℕ} {r : Rcaiocb} (h : Open s u p r)
    (shared : r.cb.is_local ≡ false) where
  open h use {handle, ne_null, at}

  abbrev uncounted : Rcaiocb
  uncounted = record r { refs = (refcount_release r.refs).0 }

  -- A release of a shared block that is not the last one lowers the count and does nothing else: the
  -- userdata keeps its cookie.
  pub l_aiocb_free-shared :
      2 ≤ r.refs
      → r.refs < 2 ^ 64
      → l_aiocb_free kernel fuel (Value.userdata u) s
        ≡ done [] (with_block s p (record r { refs = r.refs - 1 }))
  unfolding l_aiocb_free
  l_aiocb_free-shared more bound =
      let e : (refcount_release r.refs).0 ≡ r.refs - 1 = omega arith in
      rw (checkcookienull-done handle 1, ==-ne p 0 ne_null, load_block-done s ne_null at)
        (simp (shared, ==-ne r.refs 1 (λ one. absurd (omega arith)))
          (rw (store_block-done s ne_null at uncounted, e) refl))

  -- The last release of a shared block: if the kernel lets go of it within the fuel, exactly its buffer
  -- and the block itself are freed, and the cookie of the userdata is NULL.
  pub l_aiocb_free-last :
      {c : ℕ → Option Obj} {o : Obj}
      → r.refs ≡ 1
      → LetsGo kernel fuel p uncounted
      → Owns (with_block s p uncounted).cell r.cb c
      → c p ≡ some o
      → l_aiocb_free kernel fuel (Value.userdata u) s ≡ done [] (emptied h c)
  unfolding l_aiocb_free Open-with_block
  l_aiocb_free-last last lets_go owns still =
      let one : (r.refs == 1) ≡ true = ground arith in
      rw (checkcookienull-done handle 1, ==-ne p 0 ne_null, load_block-done s ne_null at)
        (simp (shared, one)
          (rw (store_block-done s ne_null at uncounted)
            (dispose-done kernel fuel (Open-with_block uncounted h) shared lets_go owns still)))
