-- ===== src/Aio/Closing.antt =====
-- `__close` and `__gc` of a control block are both `l_aiocb_free`, in aio/lua_aio.c.
use flualibs.Common.{
  ℕ, ◌-◌, ◌≡◌, ◌≢◌, false, Option, some, none, [], arith, update, get_elem?-set_ne, ◌∙◌, sym, ap,
  update-update,
}
use mathlib.Core.Path.{subst}
use flualibs.Lua.{Value, Meta}
use flualibs.Lua.Run.{done, fault, Api, ◌>>=◌}
use flualibs.Utils.Cookies.{HasCookie, checkcookie-done}
use flualibs.Refcount.{refcount_release}
use flualibs.Aio.Defs.{Rcaiocb, Obj, block, AioStore, Kernel, load_block}
use flualibs.Aio.Release.{l_aiocb_free}
use flualibs.Aio.Submit.{l_aio_error}
use flualibs.Aio.Protocol.{AtRest}
use flualibs.Aio.Submission.{Open, Open-with_block, with_block}
use flualibs.Aio.Disposal.{idle, emptied, l_aiocb_free-shared, l_aiocb_free-last}
use flualibs.Aio.Disposal.Buffers.{Owns}

load_block-freed : (p : ℕ) (s : AioStore) → p ≢ 0 → s.cell p ≡ none → load_block p s ≡ fault
unfolding load_block flualibs.Heap.load
load_block-freed p s ne gone = ground arith

module _ (api : Api) (kernel : Kernel) (fuel : ℕ) {s : AioStore} {u v p : ℕ} {r : Rcaiocb}
    (h : Open s u p r) (other : HasCookie s v Meta.aiocb p) (apart : u ≢ v)
    (shared : r.cb.is_local ≡ false) where
  abbrev one_left : Rcaiocb
  one_left = record r { refs = r.refs - 1 }

  abbrev none_left : Rcaiocb
  none_left = record r { refs = 0 }

  abbrev after : (ℕ → Option Obj) → AioStore
  after c = emptied h c

  other_keeps : (c : ℕ → Option Obj) → HasCookie (after c) v Meta.aiocb p
  other_keeps c = record {
    data_of = other.data_of;
    at = get_elem?-set_ne s.uds u v _ apart ∙ other.at;
    kind = other.kind;
    points = other.points;
  }

  second_release :
      r.refs ≡ 2
      → (with_block
          (with_block s p one_left)
          p
          (record r { refs = (refcount_release (r.refs - 1)).0 })).cell
        ≡ (with_block s p none_left).cell
  second_release two =
      let w : (refcount_release (r.refs - 1)).0 ≡ 0 = omega arith in
      update-update s.cell p (some (block one_left)) _
      ∙ ap (λ n. update s.cell p (some (block (record r { refs = n })))) w

  -- A userdata that is closed and then collected releases two references: if there are just two and the
  -- block is at rest, the block is freed under another userdata with its address, whose next
  -- `error` reads freed memory.
  pub l_aiocb_free-twice :
      {c : ℕ → Option Obj} {o : Obj}
      → r.refs ≡ 2
      → AtRest r.state
      → Owns (with_block s p none_left).cell r.cb c
      → c p ≡ some o
      → ((l_aiocb_free kernel fuel (Value.userdata u) >>= λ _.
              l_aiocb_free kernel fuel (Value.userdata u))
            s
          ≡ done [] (after c))
        × HasCookie (after c) v Meta.aiocb p
        × (l_aio_error api kernel (Value.userdata v) (after c) ≡ fault)
  unfolding Open-with_block l_aio_error
  l_aiocb_free-twice {c} two rest owns still = (
    rw (l_aiocb_free-shared kernel fuel h shared (omega arith) (omega arith)) (
        l_aiocb_free-last kernel fuel (Open-with_block one_left h) shared (omega arith) (idle rest)
          (subst (λ x. Owns x r.cb c) (sym (second_release two)) owns) still),
    other_keeps c,
    rw (
      checkcookie-done (other_keeps c) 1 h.ne_null,
      load_block-freed p (after c) h.ne_null (ground arith),
    ),
  )
