-- ===== src/Aio/Sharing.antt =====
-- `l_aiocb_retain` of aio/lua_aio.c: another userdata for a shared block, and its release.
use flualibs.Common.{
  ℕ, ◌+◌, ◌-◌, ◌^◌, ◌≤◌, ◌<◌, ◌≡◌, ◌≢◌, refl, ◌∙◌, ap, false, none, some, List, [], ◌∷◌, ◌++◌,
  arith, length,
}
use flualibs.Lua.{Value, Meta}
use flualibs.Lua.Run.{Cmd, done, undefined, ◌>>=◌}
use flualibs.Utils.{new}
use flualibs.Utils.Cookies.{new-HasCookie}
use flualibs.Refcount.{refcount_retain}
use flualibs.Aio.Defs.{Rcaiocb, block, AioStore, Kernel}
use flualibs.Aio.Submit.{l_aiocb_retain}
use flualibs.Aio.Release.{l_aiocb_free}
use flualibs.Aio.Submission.{
  Open, with_block, load_block-done, modify_block-done, with_block-at, with_block-with_block,
  with_block-same,
}
use flualibs.Aio.Disposal.{l_aiocb_free-shared}

-- The store with one more userdata, for the block at `p`.
abbrev pub with_handle : AioStore → ℕ → AioStore
with_handle s p = record s {
  uds =
      s.uds
      ++ record { meta = Meta.aiocb; cookie = Value.light p; ref = Value.nil; block = none } ∷ [];
}

-- The userdata that `retain` returned is released.
abbrev pub first_released : Kernel → ℕ → List Value → Cmd AioStore (List Value)
first_released kernel fuel [] = undefined
first_released kernel fuel (u ∷ us) = l_aiocb_free kernel fuel u

module _ (s : AioStore) {p : ℕ} {r : Rcaiocb} (ne : p ≢ 0) (at : s.cell p ≡ some (block r))
    (shared : r.cb.is_local ≡ false) (room : r.refs + 1 < 2 ^ 64) where
  abbrev one_more : Rcaiocb
  one_more = record r { refs = r.refs + 1 }

  retain-done :
      l_aiocb_retain (Value.light p) s
      ≡ done (Value.userdata (length s.uds) ∷ []) (with_handle (with_block s p one_more) p)
  unfolding l_aiocb_retain new
  retain-done =
      let count : refcount_retain r.refs ≡ r.refs + 1 = omega arith in
      rw (load_block-done s ne at) (
        simp shared (
          rw (modify_block-done s (λ v. record v { refs = refcount_retain v.refs }) ne at, count)
            refl))

  new_handle : Open (with_handle (with_block s p one_more) p) (length s.uds) p one_more
  new_handle = record {
    handle = new-HasCookie (with_block s p one_more) Meta.aiocb p;
    ne_null = ne;
    at = with_block-at s p one_more;
  }

  -- A shared block that is retained by its address and released through the new userdata is as before,
  -- its count included; the new userdata keeps the address.
  pub l_aiocb_free-retain :
      (kernel : Kernel) (fuel : ℕ)
      → 1 ≤ r.refs
      → (l_aiocb_retain (Value.light p) >>= first_released kernel fuel) s
        ≡ done [] (with_handle s p)
  l_aiocb_free-retain kernel fuel counted =
      let back : r.refs + 1 - 1 ≡ r.refs = omega arith in
      rw (retain-done, l_aiocb_free-shared kernel fuel new_handle shared (omega arith) room)
        (ap
            (λ n.
              done []
                (with_handle (with_block (with_block s p one_more) p (record r { refs = n })) p))
            back
          ∙ ap (λ t. done [] (with_handle t p))
              (with_block-with_block s p one_more r ∙ with_block-same s ne at))
