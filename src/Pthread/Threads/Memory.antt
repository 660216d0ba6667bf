-- ===== src/Pthread/Threads/Memory.antt =====
-- The memory of a thread that `l_pthread_create` of libpthread/lua_pthread.c starts: its Lua state and its
-- `struct rcthread`, at the two addresses that come next.
use flualibs.Common.{
  ℕ, ◌+◌, ◌≤◌, ◌≡◌, ◌≢◌, refl, sym, arith, Bool, false, none, some, List, [], ◌∷◌, ◌++◌, length,
  update, update_self, update_other, update-update, ◌∙◌, ap,
}
use flualibs.Lua.{Value, Meta}
use flualibs.Lua.Run.{Run, Cmd, LuaError, done, raised, ◌>>◌}
use flualibs.Heap.{alloc, load, store, free}
use flualibs.Heap.Cells.{Same, load-done, store-done, free-done}
use flualibs.Pthread.Defs.{Rc}
use flualibs.Pthread.Created.{userdata_for}
use flualibs.Pthread.Threads.{LuaState, lua_state, rcthread, World, lua_close}

-- A new Lua state at `l` and a thread at `p` with one reference, which a new userdata holds.
pub record Running (s t : World) (l p : ℕ) : Type 0 where
  pub apart : l ≢ p
  pub unused : (s.next ≤ l) × (s.next ≤ p)
  pub state : LuaState
  pub at_state : t.cell l ≡ some (lua_state state)
  pub object : Rc
  pub at_thread : t.cell p ≡ some (rcthread object)
  pub one : object.refs ≡ 1
  pub others : (q : ℕ) → q ≢ l → q ≢ p → t.cell q ≡ s.cell q
  pub uds : t.uds ≡ s.uds ++ userdata_for Meta.pthread p ∷ []

pub data Outcome (s : World) : Run World (List Value) → Type 0 where
  running :
      (t : World) (l p : ℕ)
      → Running s t l p
      → Outcome s (done (Value.userdata (length s.uds) ∷ []) t)
  failed : (vs : List Value) (t : World) → Same s t → Outcome s (done vs t)
  rejected : (e : LuaError) (t : World) → Same s t → Outcome s (raised e t)

module _ (s : World) (fresh_next : 1 ≤ s.next)
    (empty : (q : ℕ) → s.next ≤ q → s.cell q ≡ none) where
  abbrev pub n : ℕ
  n = s.next

  -- The new state has been made.
  abbrev pub child : LuaState → World
  child x = record s { cell = update s.cell n (some (lua_state x)); next = n + 1 }

  -- The memory of the thread, too.
  abbrev pub pair : LuaState → Rc → World
  pair x r = record s {
    cell = update (update s.cell n (some (lua_state x))) (n + 1) (some (rcthread r));
    next = n + 1 + 1;
  }

  pub n_ne : n ≢ 0
  n_ne = omega arith

  pub p_ne : n + 1 ≢ 0
  p_ne = omega arith

  pub n_apart : n ≢ n + 1
  n_apart = omega arith

  pub load-child : (x : LuaState) → load n (child x) ≡ done (lua_state x) (child x)
  load-child x = load-done n (child x) n_ne (update_self s.cell n _)

  pub store-child : (x y : LuaState) → store n (lua_state y) (child x) ≡ done tt (child y)
  store-child x y =
      store-done n (child x) n_ne (update_self s.cell n _) (lua_state y)
      ∙ ap (λ c. done tt (record s { cell = c; next = n + 1 })) (update-update s.cell n _ _)

  abbrev pub without_child : World
  without_child = record s { cell = update s.cell n none; next = n + 1 }

  pub close-child : (x : LuaState) → free n (child x) ≡ done tt without_child
  close-child x =
      free-done n (child x) n_ne (update_self s.cell n _)
      ∙ ap (λ c. done tt (record s { cell = c; next = n + 1 })) (update-update s.cell n _ _)

  pub Same-without : Same s without_child
  Same-without = record { cells = λ q. ground (arith, empty q); uds = refl; next = omega arith }

  pub Same-self : Same s s
  Same-self = record { cells = λ q. refl; uds = refl; next = omega arith }

  pub alloc-child :
      (oom : ℕ → Bool) (x : LuaState) (r : Rc)
      → oom (n + 1) ≡ false
      → alloc oom (rcthread r) (child x) ≡ done (n + 1) (pair x r)
  alloc-child oom x r h = unfold alloc in ground arith

  pub store-pair :
      (x : LuaState) (r q : Rc) → store (n + 1) (rcthread q) (pair x r) ≡ done tt (pair x q)
  store-pair x r q =
      store-done (n + 1) (pair x r) p_ne (update_self (update s.cell n _) (n + 1) _) (rcthread q)
      ∙ ap (λ c. done tt (record s { cell = c; next = n + 1 + 1 }))
          (update-update (update s.cell n _) (n + 1) _ _)

  abbrev pub without_both : LuaState → Rc → World
  without_both x r = record s {
    cell =
        update
          (update (update (update s.cell n (some (lua_state x))) (n + 1) (some (rcthread r))) n
            none)
          (n + 1) none;
    next = n + 1 + 1;
  }

  -- Both are freed, the state first.
  pub free-pair :
      {A : Type 0} (x : LuaState) (r : Rc) (k : Cmd World A)
      → (lua_close n >> (free (n + 1) >> k)) (pair x r) ≡ k (without_both x r)
  free-pair x r k =
      let first : (pair x r).cell n ≡ some (lua_state x) =
        update_other (update s.cell n (some (lua_state x))) (n + 1) n _ (λ e. n_apart (sym e))
        ∙ update_self s.cell n _ in
      let closed : World = record (pair x r) { cell = update (pair x r).cell n none } in
      let second : closed.cell (n + 1) ≡ some (rcthread r) =
        update_other (pair x r).cell n (n + 1) none n_apart
        ∙ update_self (update s.cell n (some (lua_state x))) (n + 1) _ in
      rw (free-done n (pair x r) n_ne first, free-done (n + 1) closed p_ne second) refl

  pub Same-both : (x : LuaState) (r : Rc) → Same s (without_both x r)
  Same-both x r = record {
    cells = λ q. ground (arith, empty q, empty (n + 1));
    uds = refl;
    next = omega arith;
  }

  pub Running-pair :
      (x : LuaState) (r : Rc)
      → r.refs ≡ 1
      → Running s
          (record (pair x r) { uds = s.uds ++ userdata_for Meta.pthread (n + 1) ∷ [] })
          n
          (n + 1)
  Running-pair x r one = record {
    apart = n_apart;
    unused = (omega arith, omega arith);
    state = x;
    at_state =
        update_other (update s.cell n (some (lua_state x))) (n + 1) n _ (λ e. n_apart (sym e))
        ∙ update_self s.cell n _;
    object = r;
    at_thread = update_self (update s.cell n (some (lua_state x))) (n + 1) _;
    one = one;
    others = λ q l p. ground arith;
    uds = refl;
  }
