-- ===== src/Aio/Tests/Lists.antt =====
-- Concrete lists of requests and buffers, and a release that happens twice, for aio/lua_aio.c.
use flualibs.Common.{
  ℕ, ◌≡◌, refl, Option, some, none, [], ◌∷◌, arith, inl, inr, update, ◌==◌, if◌then◌else◌,
}
use flualibs.Common.Int.{pos}
use flualibs.Lua.{Value, Meta, item, last, Fields}
use flualibs.Lua.Run.{done, fault, ◌>>=◌}
use flualibs.Utils.Cookies.{HasCookie}
use flualibs.Aio.Defs.{
  uninit, init, pending, Rcaiocb, Obj, block, bytes, iovecs, AioStore, Kernel, result,
}
use flualibs.Aio.Submit.{l_aio_error}
use flualibs.Aio.Release.{l_aiocb_free}
use flualibs.Aio.Batch.{l_lio_listio}
use flualibs.Aio.Disposal.{emptied}
use flualibs.Aio.Disposal.Buffers.{plain, allocated}
use flualibs.Aio.Closing.{l_aiocb_free-twice}
use flualibs.Aio.Listing.{Listed}
use flualibs.Aio.Listing.Whole.{Outcome, l_lio_listio-Outcome}
use flualibs.Aio.Tests.{api, kernel, counted_block, cells, handle, state_with, opened, fresh}

abbrev two_refs : Rcaiocb
two_refs = counted_block 2 init init

abbrev other : HasCookie (state_with two_refs) 1 Meta.aiocb 1
other = record { data_of = handle; at = refl; kind = refl; points = refl }

abbrev left_over : ℕ → Option Obj
left_over = update (update (cells two_refs) 1 (some (block (counted_block 0 init init)))) 2 none

l_aiocb_free-twice_example :
    ((l_aiocb_free kernel 0 (Value.userdata 0) >>= λ _. l_aiocb_free kernel 0 (Value.userdata 0))
        (state_with two_refs)
      ≡ done [] (emptied (opened two_refs) left_over))
    × HasCookie (emptied (opened two_refs) left_over) 1 Meta.aiocb 1
    × (l_aio_error api kernel (Value.userdata 1) (emptied (opened two_refs) left_over) ≡ fault)
l_aiocb_free-twice_example =
    l_aiocb_free-twice api kernel 0 (opened two_refs) other (ground arith) refl refl (inr refl)
      (plain refl (allocated refl)) refl

-- One block listed once, and then listed twice.
l_lio_listio-Outcome_example :
    Outcome api kernel (pos 0) (state_with fresh) (item (Value.userdata 0) last) (
      l_lio_listio api kernel
        (Value.integer (pos 0))
        (Value.table (item (Value.userdata 0) last) Fields.end)
        (Value.table last Fields.end)
        Value.absent
        (state_with fresh))
l_lio_listio-Outcome_example =
    l_lio_listio-Outcome api kernel (pos 0) (state_with fresh) (item (Value.userdata 0) last)
      (Value.integer (pos 0)) (pos 0) last Fields.end Fields.end refl refl

abbrev begun : AioStore
begun = record (state_with fresh) {
  cell = update (cells fresh) 1 (some (block (counted_block 1 uninit pending)));
}

Listed-begun : Listed (cells fresh) ((1, uninit) ∷ []) begun.cell
Listed-begun = (fresh, λ e. ground arith, inl refl, refl, refl, λ q. ground arith)

-- Two buffers, the second of which was never allocated.
abbrev vectors : AioStore
vectors = record {
  cell = λ q.
      if q == 1
      then some (iovecs ((2, 4) ∷ (0, 0) ∷ []))
      else (if q == 2 then some (bytes (none ∷ none ∷ none ∷ none ∷ [])) else none);
  next = 3;
  uds = [];
}

abbrev completing : Kernel
completing = record kernel { completed = (1, result 8) }

abbrev pending_once : Rcaiocb
pending_once = counted_block 1 uninit pending
