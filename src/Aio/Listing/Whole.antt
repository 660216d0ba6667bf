-- ===== src/Aio/Listing/Whole.antt =====
-- `l_lio_listio` of aio/lua_aio.c as a whole: all or nothing, but for bad blocks.
use flualibs.Common.{ℕ, ◌≡◌, refl, none, List}
use flualibs.Common.Int.{ℤ, to_int}
use flualibs.Lua.{Value, Items, Fields}
use flualibs.Lua.Run.{Run, done, raised, fault, arg_error, Api, checkinteger, and_then}
use flualibs.Utils.{success, fail}
use flualibs.Aio.Defs.{State, AioStore, lio_listio, Answer, result, failed, Kernel}
use flualibs.Aio.Batch.{blocks_of, listed, l_lio_listio}
use flualibs.Aio.Listing.{Cells, Listed, rollback_states-Listed}
use flualibs.Aio.Listing.Walk.{
  Pending, StopsAt, Stray, Bad, Walk, all_begun, put_back, broken, begin_all-Walk,
}

module _ (api : Api) (kernel : Kernel) (m : ℤ) (s : AioStore) (vs : Items) where
  -- The results: every element named a block that was admitted in its turn, and the kernel took the
  -- requests of these blocks in the order of the list, which are pending now, or it refused them, and
  -- the store is as before; an element is no control block, and the store is as before; an element
  -- that the loop comes to is bad.
  pub data Outcome : Run AioStore (List Value) → Type 0 where
    taken :
        (es : List (ℕ × State)) (c : Cells) {k : ℕ}
        → Pending kernel s.uds s.cell vs es c
        → Listed s.cell es c
        → kernel.call (lio_listio m (blocks_of api kernel es) none) ≡ result k
        → Outcome (done success (record s { cell = c }))
    refused :
        (es : List (ℕ × State)) (c : Cells) {e : ℕ}
        → Pending kernel s.uds s.cell vs es c
        → kernel.call (lio_listio m (blocks_of api kernel es) none) ≡ failed e
        → Outcome (done (fail api e) s)
    invalid :
        StopsAt kernel s.uds (Stray kernel s.uds) s.cell vs
        → Outcome (raised (arg_error 2 "invalid aiocb") s)
    undefined_at : StopsAt kernel s.uds (Bad kernel s.uds) s.cell vs → Outcome fault

  listed-Outcome :
      (es : List (ℕ × State)) (c : Cells) (answer : Answer)
      → Pending kernel s.uds s.cell vs es c
      → Listed s.cell es c
      → kernel.call (lio_listio m (blocks_of api kernel es) none) ≡ answer
      → Outcome (listed api kernel es answer (record s { cell = c }))
  listed-Outcome es c (result k) p h e = taken es c p h e
  listed-Outcome es c (failed k) p h e =
      rw (rollback_states-Listed s.cell es (record s { cell = c }) h) (refused es c p e)

  Walk-Outcome :
      {run : Run AioStore (List (ℕ × State))}
      → Walk api kernel s vs run
      → Outcome (
          and_then run (λ es.
            listed api kernel es (kernel.call (lio_listio m (blocks_of api kernel es) none))))
  Walk-Outcome (all_begun es c p h) = listed-Outcome es c _ p h refl
  Walk-Outcome (put_back p) = invalid p
  Walk-Outcome (broken p) = undefined_at p

  -- `aio.listio(mode, cbs, {})` on a table `cbs`, with an integer mode and without a sigevent, takes the
  -- elements in turn and ends in one of four ways. Each element names a block that is admitted in its
  -- turn and becomes pending, and the kernel takes the requests of these blocks, or it refuses them and
  -- the store is as before. An element after such blocks is no control block, and the store is as before.
  -- Or the element after such blocks has a block that is not admitted or a dangling address, which C
  -- leaves undefined.
  pub l_lio_listio-Outcome :
      (mode : Value) (n : ℤ) (third : Items) (fs gs : Fields)
      → checkinteger api 1 mode s ≡ done n s
      → to_int n ≡ m
      → Outcome
          (l_lio_listio api kernel mode (Value.table vs fs) (Value.table third gs) Value.absent s)
  unfolding l_lio_listio
  l_lio_listio-Outcome mode n third fs gs given same =
      rw (given, same) (Walk-Outcome (begin_all-Walk api kernel s vs))
