-- ===== src/Aio/Listing.antt =====
-- The loop of `l_lio_listio` in aio/lua_aio.c: what `rollback_states` puts back.
pub mod Walk
pub mod Whole
use flualibs.Common.{
  ℕ, suc, ◌+◌, ◌≡◌, ◌≢◌, refl, inl, inr, ◌⊎◌, Bool, true, false, Option, some, none, List, [], ◌∷◌,
  ◌++◌, arith, ap, sym, ◌∙◌, update, update_comm, ◌==◌, ==-ne, Bool-cases,
}
use mathlib.Core.Path.{subst}
use native.Mathlib.Numerals.{add-one}
use flualibs.Utils.Cookies.{testcookie-done}
use flualibs.Lua.{Value, Items, last, item, Meta, Store}
use flualibs.Lua.Run.{Run, done, raised, fault, arg_error, Api}
use flualibs.Aio.Defs.{
  State, uninit, init, pending, returning, Rcaiocb, Obj, block, bytes, iovecs, load_block, AioStore,
  Kernel, rcaiocb_rollback,
}
use flualibs.Aio.Batch.{rollback_states, entry_count, begin_entry, enter, begin_all}
use flualibs.Aio.Protocol.{AtRest}
use flualibs.Aio.Submission.{load_block-done, store_block-done, modify_block-done, with_block-same}

abbrev pub Cells : Type 0
Cells = ℕ → Option Obj

-- `c` is the heap `start` with the blocks of the entries pending, each listed once with its state.
abbrev pub Listed : Cells → List (ℕ × State) → Cells → Type 0
Listed start [] c = (q : ℕ) → c q ≡ start q
Listed start ((p, state) ∷ es) c =
    (r : Rcaiocb) × (p ≢ 0)
    × AtRest r.state
    × (r.state ≡ state)
    × (c p ≡ some (block (record r { state = pending })))
    × Listed start es (update c p (some (block r)))

-- A rollback of every entry puts the heap back.
pub rollback_states-Listed :
    (start : Cells) (es : List (ℕ × State)) (t : AioStore)
    → Listed start es t.cell
    → rollback_states (entry_count es) es t ≡ done tt (record t { cell = start })
unfolding rollback_states rcaiocb_rollback
rollback_states-Listed start [] t h = λ i. done tt (record t { cell = λ q. h q i })
rollback_states-Listed start ((p, state) ∷ es) t (r, ne, rest, same, at, more) =
    rw (modify_block-done t (λ v. rcaiocb_rollback v state) ne at) (
      rollback_states-Listed start es
        (record t { cell = update t.cell p (some (block (record r { state = state }))) })
        (subst (λ x. Listed start es (update t.cell p (some (block x))))
          (λ i. record r { state = same i }) more))

rest_not_pending : (s : State) → AtRest s → s ≢ pending
rest_not_pending s h = ground arith

state_of_eq :
    {r v : Rcaiocb} → ◌≡◌ {A = Option Obj} (some (block r)) (some (block v)) → r.state ≡ v.state
state_of_eq e = ground arith

-- Another block that was at rest becomes the last entry.
pub Listed-append :
    (start : Cells) (es : List (ℕ × State)) (c : Cells) (p : ℕ) (r : Rcaiocb)
    → Listed start es c
    → p ≢ 0
    → c p ≡ some (block r)
    → AtRest r.state
    → Listed start
        (es ++ (p, r.state) ∷ [])
        (update c p (some (block (record r { state = pending }))))
Listed-append start [] c p r h ne at rest =
    (r, ne, rest, refl, ground arith, λ q. ground (arith, h q))
Listed-append start ((q, state) ∷ es) c p r (v, ne', rest', same, at', more) ne at rest =
    let apart : p ≢ q = λ e. rest_not_pending r.state rest (state_of_eq (sym at ∙ ap c e ∙ at')) in
    (
      v,
      ne',
      rest',
      same,
      ground arith,
      subst (Listed start (es ++ (p, r.state) ∷ []))
          (sym (
            update_comm c p q (some (block (record r { state = pending }))) (some (block v)) apart))
          (Listed-append start es (update c q (some (block v))) p r more ne (ground arith) rest),
    )

-- A rollback of one element more than the loop wrote is undefined: it reads an element of the arrays
-- that was never written.
pub rollback_states-more :
    (start : Cells) (es : List (ℕ × State)) (t : AioStore)
    → Listed start es t.cell
    → rollback_states (suc (entry_count es)) es t ≡ fault
unfolding rollback_states rcaiocb_rollback
rollback_states-more start [] t h = refl
rollback_states-more start ((p, state) ∷ es) t (r, ne, rest, same, at, more) =
    rw (modify_block-done t (λ v. rcaiocb_rollback v state) ne at) (
      rollback_states-more start es
        (record t { cell = update t.cell p (some (block (record r { state = state }))) })
        (subst (λ x. Listed start es (update t.cell p (some (block x))))
          (λ i. record r { state = same i }) more))
