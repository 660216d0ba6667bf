-- ===== src/Pthread/Threads/Joining.antt =====
-- How a thread of libpthread/lua_pthread.c is joined after its function has ended, and after it has
-- called `pthread.exit`.
use flualibs.Common.{
  ℕ, suc, ◌≡◌, ◌≢◌, refl, arith, Bool, true, none, some, List, ◌∷◌, update, update_same,
  update_self, update_other, update-update, ◌∙◌,
}
use flualibs.Lua.{Value, Items, Meta}
use flualibs.Lua.Run.{done, fault, Api, ◌>>=◌}
use flualibs.Utils.Cookies.{HasCookie, checkcookie-done}
use flualibs.Heap.Cells.{load-done, load-fault, store-done, free-done}
use flualibs.Pthread.Defs.{Rc, Lib}
use flualibs.Pthread.Copy.Whole.{AllPlain, copyn-plain}
use flualibs.Pthread.Cleanup.{thread_cleanup}
use flualibs.Pthread.Rendezvous.{sent}
use flualibs.Pthread.Threads.{
  LuaState, lua_state, rcthread, World, copy_values, thread_kfunction, l_pthread_join,
  l_pthread_exit,
}

module _ (api : Api) (lib : Lib) (oom : ℕ → Bool) (slot : Bool) (dumps : ℕ → Bool) (globals : Value)
    (depth : ℕ) where
  -- Values that are plain are copied between two open states, and nothing changes.
  copy_values-plain :
      (s : World) (from to idx : ℕ) (source target : LuaState) (vs : List Value)
      → from ≢ 0
      → to ≢ 0
      → s.cell from ≡ some (lua_state source)
      → s.cell to ≡ some (lua_state target)
      → AllPlain vs
      → copy_values api lib oom slot dumps globals (suc depth) from to idx vs s ≡ done (sent vs) s
  unfolding copy_values
  copy_values-plain s from to idx source target vs nf nt at_from at_to plain =
      rw
        (
          load-done from s nf at_from,
          load-done to s nt at_to,
          copyn-plain slot dumps source.closures globals vs plain depth idx target.closures,
          store-done to s nt at_to (lua_state target),
          update_same s.cell to at_to,
        )
        refl

  -- A thread whose function has ended, with or without an error, in a state `l` that is open: another
  -- state `L` that joins it returns the status and the results, if they are plain, and the state of the
  -- thread is closed; nothing else changes.
  pub l_pthread_join-thread_kfunction :
      (s : World) (L l p u : ℕ) (caller state : LuaState) (r : Rc)
      → HasCookie s u Meta.pthread p
      → p ≢ 0
      → L ≢ 0
      → l ≢ 0
      → l ≢ L
      → s.cell p ≡ some (rcthread r)
      → s.cell L ≡ some (lua_state caller)
      → s.cell l ≡ some (lua_state state)
      → (status : Bool) (results : List Value) → AllPlain results
      → (thread_kfunction api lib oom slot dumps globals (suc depth) l status results >>= λ result.
            l_pthread_join api lib oom slot dumps globals
              (suc depth)
              (λ handle. (0, result))
              L
              (Value.userdata u))
          s
        ≡ done (Value.boolean status ∷ results) (record s { cell = update s.cell l none })
  unfolding thread_kfunction l_pthread_join
  l_pthread_join-thread_kfunction s L l p u caller state r h np nL nl apart at_p at_L at_l status
        results plain =
      let ended : LuaState = record state { stack = Value.boolean status ∷ results } in
      let t : World = record s { cell = update s.cell l (some (lua_state ended)) } in
      let h_t : HasCookie t u Meta.pthread p = record {
        data_of = h.data_of;
        at = h.at;
        kind = h.kind;
        points = h.points;
      } in
      let there : t.cell p ≡ some (rcthread r) = ground (arith, at_p, at_l) in
      let here : t.cell l ≡ some (lua_state ended) = update_self s.cell l _ in
      let other : t.cell L ≡ some (lua_state caller) = update_other s.cell l L _ apart ∙ at_L in
      rw
        (
          load-done l s nl at_l,
          store-done l s nl at_l (lua_state ended),
          checkcookie-done h_t 1 np,
          load-done p t np there,
          load-done l t nl here,
          copy_values-plain t l L 1 ended caller (Value.boolean status ∷ results) nl nL here other
              (refl, plain),
          free-done l t nl here,
          update-update s.cell l (some (lua_state ended)) none,
        )
        refl

  -- A thread that calls `pthread.exit` and whose cleanup handlers run to their end closes its state by
  -- the handler of `thread_wrapper`: a join uses the closed state.
  pub l_pthread_join-l_pthread_exit :
      (s : World) (L l p u : ℕ) (state : LuaState) (r : Rc)
      → HasCookie s u Meta.pthread p
      → p ≢ 0
      → l ≢ 0
      → s.cell p ≡ some (rcthread r)
      → s.cell l ≡ some (lua_state state)
      → (border : Items → ℕ) (pcall : Value → List Value → Bool × List Value)
      → (calls : List (Value × List Value)) (left : List Value)
      → thread_cleanup border pcall state.handlers ≡ done calls left
      → (args : List Value)
      → (l_pthread_exit api lib oom slot dumps globals depth border pcall l args >>= λ result.
            l_pthread_join api lib oom slot dumps globals depth
              (λ handle. (0, result))
              L
              (Value.userdata u))
          s
        ≡ fault
  unfolding l_pthread_exit l_pthread_join
  l_pthread_join-l_pthread_exit s L l p u state r h np nl at_p at_l border pcall calls left cleanup
        args =
      let exiting : LuaState = record state { stack = Value.boolean true ∷ args } in
      let t : World = record s { cell = update s.cell l (some (lua_state exiting)) } in
      let v : World = record s {
        cell = update (update s.cell l (some (lua_state exiting))) l none;
      } in
      let h_v : HasCookie v u Meta.pthread p = record {
        data_of = h.data_of;
        at = h.at;
        kind = h.kind;
        points = h.points;
      } in
      let here : t.cell l ≡ some (lua_state exiting) = update_self s.cell l _ in
      let there : v.cell p ≡ some (rcthread r) = ground (arith, at_p, at_l) in
      rw
        (
          load-done l s nl at_l,
          store-done l s nl at_l (lua_state exiting),
          cleanup,
          free-done l t nl here,
          checkcookie-done h_v 1 np,
          load-done p v np there,
          load-fault l v (update_self t.cell l none),
        )
        refl
