-- ===== src/Aio/Returning.antt =====
-- `l_aio_return` of aio/lua_aio.c on every branch, and a return that comes before completion.
use flualibs.Common.{◌≡◌, ◌≢◌, Bool, true, false, some, List, [], ◌∷◌, arith, ℕ}
use flualibs.Common.Int.{ℤ, pos}
use flualibs.Lua.{Value}
use flualibs.Lua.Run.{Run, done, raised, arg_error, Api, optinteger, ◌>>=◌}
use flualibs.Utils.{fail}
use flualibs.Utils.Cookies.{checkcookie-done}
use flualibs.Aio.Defs.{
  State, uninit, init, pending, returning, Rcaiocb, block, AioStore, aio_return, Answer, result,
  failed, Kernel, rcaiocb_trybeginreturn, rcaiocb_rollback, rcaiocb_commit,
}
use flualibs.Aio.Submit.{read_call, returned, return_after, l_aio_read, l_aio_return}
use flualibs.Aio.Protocol.{AtRest, Remembers, readable_of_rest}
use flualibs.Aio.Submission.{
  Open, Open-with_block, with_block, load_block-done, store_block-done, modify_block-done,
  with_block-same, with_block-with_block, with_block-at, l_aio_read-submission,
}

abbrev is_pending : State → Bool
is_pending pending = true
is_pending uninit = false
is_pending init = false
is_pending returning = false

abbrev returning_if : Bool → Rcaiocb → Rcaiocb
returning_if true r = record r { state = returning }
returning_if false r = r

trybeginreturn-eq :
    (r : Rcaiocb)
    → rcaiocb_trybeginreturn r ≡ (is_pending r.state, returning_if (is_pending r.state) r, r.state)
unfolding rcaiocb_trybeginreturn
trybeginreturn-eq r = ground arith

-- What a return gives: after a result the block is in the state INIT and remembers it, after a failure
-- it is in the state that it remembers.
abbrev pub completion : Api → AioStore → ℕ → Rcaiocb → Bool → Answer → Run AioStore (List Value)
completion api s p r true (result n) =
    done (Value.integer (pos n) ∷ [])
      (with_block s p (record r { cb = record (r.cb) { aio_state = init }; state = init }))
completion api s p r true (failed e) =
    done (fail api e) (with_block s p (record r { state = r.cb.aio_state }))
completion api s p r false answer = raised (arg_error 1 "buffer not pending") s

module _ (api : Api) (kernel : Kernel) (s : AioStore) {p : ℕ} {r : Rcaiocb} (ne : p ≢ 0)
    (at : s.cell p ≡ some (block r)) where
  returned-completion :
      (answer : Answer)
      → returned api kernel p
          (record r { state = returning })
          answer
          (with_block s p (record r { state = returning }))
        ≡ completion api s p r true answer
  unfolding rcaiocb_rollback rcaiocb_commit
  returned-completion (result n) = rw (
    modify_block-done (with_block s p (record r { state = returning })) rcaiocb_commit ne
        (with_block-at s p (record r { state = returning })),
    with_block-with_block s p (record r { state = returning })
        (rcaiocb_commit (record r { state = returning })),
  )
  returned-completion (failed e) = rw (
    modify_block-done (with_block s p (record r { state = returning }))
        (λ v. rcaiocb_rollback v v.cb.aio_state) ne
        (with_block-at s p (record r { state = returning })),
    with_block-with_block s p (record r { state = returning })
        (record r { state = r.cb.aio_state }),
  )

  return_after-completion :
      (ok : Bool)
      → return_after api kernel p (ok, returning_if ok r, r.state) s
        ≡ completion api s p r ok (kernel.call (aio_return p))
  return_after-completion true =
      rw (store_block-done s ne at (record r { state = returning }))
        (returned-completion (kernel.call (aio_return p)))
  return_after-completion false = rw (store_block-done s ne at r, with_block-same s ne at)

module _ (api : Api) (kernel : Kernel) {s : AioStore} {u p : ℕ} {r : Rcaiocb}
    (h : Open s u p r) where
  open h use {handle, ne_null, at}

  -- `cb:_return()` is admitted exactly in the state PENDING. After a result the block is in the state INIT
  -- and remembers it; after a failure it is in the state that it remembers; in the other states it is
  -- an argument error that changes nothing.
  pub l_aio_return-completion :
      l_aio_return api kernel (Value.userdata u) s
      ≡ completion api s p r (is_pending r.state) (kernel.call (aio_return p))
  unfolding l_aio_return
  l_aio_return-completion =
      rw (checkcookie-done handle 1 ne_null, load_block-done s ne_null at, trybeginreturn-eq r)
        (return_after-completion api kernel s ne_null at (is_pending r.state))

restored : {r : Rcaiocb} → AtRest r.state → Remembers r → record r { state = r.cb.aio_state } ≡ r
restored {r} rest mem = λ i. record r { state = mem.same rest i }

module _ (api : Api) (kernel : Kernel) {s : AioStore} {u p : ℕ} {r : Rcaiocb}
    (h : Open s u p r) where
  open h use {ne_null, at}

  abbrev submitted_block : Rcaiocb
  submitted_block = record r { state = pending }

  failed_return :
      {e : ℕ}
      → AtRest r.state
      → Remembers r
      → kernel.call (aio_return p) ≡ failed e
      → l_aio_return api kernel (Value.userdata u) (with_block s p submitted_block)
        ≡ done (fail api e) s
  failed_return rest mem refused = rw (
    l_aio_return-completion api kernel (Open-with_block submitted_block h),
    refused,
    with_block-with_block s p submitted_block (record r { state = r.cb.aio_state }),
    restored rest mem,
    with_block-same s ne_null at,
  )

  -- A return that fails after an accepted read of a shared block at rest puts the whole store back: the
  -- block is at rest again, whatever the errno says of the request.
  pub l_aio_return-read :
      (flags : Value) {n : ℤ} {k e : ℕ}
      → optinteger api 2 flags (pos 0) s ≡ done n s
      → r.cb.is_local ≡ false
      → AtRest r.state
      → Remembers r
      → kernel.call (read_call p r.cb.is_vector n) ≡ result k
      → kernel.call (aio_return p) ≡ failed e
      → (l_aio_read api kernel (Value.userdata u) flags >>= λ _.
            l_aio_return api kernel (Value.userdata u))
          s
        ≡ done (fail api e) s
  l_aio_return-read flags given shared rest mem accepted refused =
      rw
        (
          l_aio_read-submission api kernel h flags given shared,
          accepted,
          readable_of_rest r.state rest,
        )
        (failed_return rest mem refused)
