-- ===== src/Aio/Waiting.antt =====
-- `l_suspend` and `l_aio_waitcomplete` of aio/lua_aio.c.
use flualibs.Common.{
  ℕ, ◌+◌, ◌^◌, ◌<◌, ◌≡◌, ◌≢◌, refl, ◌∙◌, ap, false, some, Option, List, [], ◌∷◌, arith, length,
  ==-ne,
}
use flualibs.Common.Int.{ℤ, pos}
use flualibs.Lua.{Value}
use flualibs.Lua.Run.{done, Api}
use flualibs.Utils.{fail, new}
use flualibs.Aio.Defs.{
  init, Rcaiocb, block, AioStore, Kernel, Answer, result, failed, rcaiocb_commit, rcaiocb_rollback,
  modify_block,
}
use flualibs.Refcount.{refcount_retain}
use flualibs.Aio.Batch.{timeout, l_aio_waitcomplete}
use flualibs.Aio.Submission.{
  with_block, load_block-done, modify_block-done, with_block-at, with_block-with_block,
}
use flualibs.Aio.Sharing.{with_handle}

-- What `aio_waitcomplete` leaves of the block that it gave, and the values after the userdata.
abbrev pub completed_block : Rcaiocb → Answer → Rcaiocb
completed_block r (result n) = record r {
  cb = record (r.cb) { aio_state = init };
  refs = r.refs + 1;
  state = init;
}
completed_block r (failed e) = record r { refs = r.refs + 1; state = r.cb.aio_state }

abbrev pub completion_values : Api → Answer → List Value
completion_values api (result n) = Value.integer (pos n) ∷ []
completion_values api (failed e) = fail api e

module _ (api : Api) (kernel : Kernel) (s : AioStore) {p : ℕ} {r : Rcaiocb} (ne : p ≢ 0)
    (at : s.cell p ≡ some (block r)) (shared : r.cb.is_local ≡ false)
    (room : r.refs + 1 < 2 ^ 64) where
  abbrev one_more : Rcaiocb
  one_more = record r { refs = r.refs + 1 }

  taken :
      modify_block p (λ v. record v { refs = refcount_retain v.refs }) s
      ≡ done tt (with_block s p one_more)
  taken =
      let count : refcount_retain r.refs ≡ r.refs + 1 = omega arith in
      modify_block-done s (λ v. record v { refs = refcount_retain v.refs }) ne at
      ∙ ap (λ n. done tt (with_block s p (record r { refs = n }))) count

  second_change :
      (f : Rcaiocb → Rcaiocb)
      → modify_block p f (with_handle (with_block s p one_more) p)
        ≡ done tt (with_handle (with_block s p (f one_more)) p)
  second_change f =
      modify_block-done (with_handle (with_block s p one_more) p) f ne (with_block-at s p one_more)
      ∙ ap (λ t. done tt (with_handle t p)) (with_block-with_block s p one_more (f one_more))

  with_result :
      (sec nsec : Value) (n : ℕ) {t : Option (ℤ × ℤ)}
      → timeout api kernel 1 sec nsec s ≡ done t s
      → kernel.completed ≡ (p, result n)
      → l_aio_waitcomplete api kernel sec nsec s
        ≡ done
            (Value.userdata (length s.uds) ∷ Value.integer (pos n) ∷ [])
            (with_handle (with_block s p (rcaiocb_commit one_more)) p)
  unfolding l_aio_waitcomplete new
  with_result sec nsec n given done_by =
      rw (given, done_by, ==-ne p 0 ne, load_block-done s ne at)
        (simp shared (rw (taken, second_change rcaiocb_commit) refl))

  -- When the kernel gives back a shared block with an answer, a new userdata with one more reference has
  -- it; after a result it is in the state INIT and remembers it, after a failure it is in the state
  -- that it remembers.
  pub l_aio_waitcomplete-completed :
      (sec nsec : Value) (answer : Answer) {t : Option (ℤ × ℤ)}
      → timeout api kernel 1 sec nsec s ≡ done t s
      → kernel.completed ≡ (p, answer)
      → l_aio_waitcomplete api kernel sec nsec s
        ≡ done
            (Value.userdata (length s.uds) ∷ completion_values api answer)
            (with_handle (with_block s p (completed_block r answer)) p)
  unfolding l_aio_waitcomplete new rcaiocb_commit rcaiocb_rollback
  l_aio_waitcomplete-completed sec nsec (result n) given done_by =
      with_result sec nsec n given done_by
  l_aio_waitcomplete-completed sec nsec (failed e) given done_by =
      rw (given, done_by, ==-ne p 0 ne, load_block-done s ne at)
        (simp shared (rw (taken, second_change (λ v. rcaiocb_rollback v v.cb.aio_state)) refl))
