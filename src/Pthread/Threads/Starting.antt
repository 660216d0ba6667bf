-- ===== src/Pthread/Threads/Starting.antt =====
-- `l_pthread_create` of libpthread/lua_pthread.c: a thread that runs, or nothing left behind.
use flualibs.Common.{
  ℕ, ◌+◌, ◌≤◌, ◌≡◌, ◌≢◌, refl, arith, Bool, true, false, none, some, String, List, [], ◌∷◌, update,
  update_self, update_other, ◌∙◌, Bool-cases, inl, inr, ◌==◌, ==-ne,
}
use flualibs.Common.Int.{ℤ, pos}
use flualibs.Lua.{Value}
use flualibs.Lua.Run.{Cmd, arg_error, done, fault, raise, pure, Api, ◌>>=◌, ◌>>◌}
use flualibs.Utils.{fail, fatal, new}
use flualibs.Heap.{alloc}
use flualibs.Heap.Cells.{Same, load-done, load-fault, free-done}
use flualibs.Pthread.Defs.{Rc, Lib}
use flualibs.Pthread.Create.{must, counted}
use flualibs.Pthread.Copy.{Closures, Copied, copied, out_of_stack, copyn}
use flualibs.Pthread.Copy.Depth.{Ends}
use flualibs.Pthread.Rendezvous.{Sent, sent}
use flualibs.Pthread.Threads.{
  LuaState, lua_state, rcthread, World, new_state, copy_values, answered, launched, allocated,
  started, with_state, with_function, with_arguments, l_pthread_create, checkattr,
}
use flualibs.Pthread.Threads.Memory.{
  Outcome, running, failed, rejected, child, pair, load-child, store-child, close-child,
  alloc-child, store-pair, free-pair, Running-pair, n_ne, p_ne, without_child, Same-without,
  Same-self, Same-both,
}

module _ (s : World) (fresh_next : 1 ≤ s.next)
    (empty : (q : ℕ) → s.next ≤ q → s.cell q ≡ none) where
  module _ (api : Api) (lib : Lib) (oom : ℕ → Bool) (slot : Bool) (dumps : ℕ → Bool)
      (globals : Value) (depth : ℕ) where
    launched-Outcome :
        (x : LuaState) (r : Rc) (creation destruction : ℕ) (handle : ℤ)
        → Outcome s (
            launched api lib oom slot dumps globals depth s.next
              (s.next + 1)
              creation
              destruction
              handle
              (pair s fresh_next empty x r))
    unfolding new
    launched-Outcome x r creation destruction handle = elim (Bool-cases (destruction == 0)) [
      | inl ok ↦ rw ok (elim (Bool-cases (creation == 0)) [
        | inl fine ↦
            rw (fine, store-pair s fresh_next empty x r (counted handle))
              (running _ s.next (s.next + 1)
                (Running-pair s fresh_next empty x (counted handle) refl))
        | inr bad ↦
            rw (bad, free-pair s fresh_next empty x r (pure (fail api creation)))
              (failed _ _ (Same-both s fresh_next empty x r))
      ])
      | inr bad ↦
          rw (bad, free-pair s fresh_next empty x r (fatal "pthread_attr_destroy" destruction))
            (rejected _ _ (Same-both s fresh_next empty x r))
    ]

    -- `must` either goes on or raises, without a change.
    must-Outcome :
        (name : String) (t : World) (next : Cmd World (List Value))
        → Same s t
        → Outcome s (next t)
        → Outcome s ((must lib name >> next) t)
    must-Outcome name t next same h = elim (Bool-cases (lib.call name [] == 0)) [
      | inl ok ↦ rw ok h
      | inr bad ↦ rw bad (rejected _ _ same)
    ]

    allocated-Outcome :
        (L : ℕ) (x : LuaState) (r : Rc)
        → Outcome s (
            allocated api lib oom slot dumps globals depth L s.next
              (s.next + 1)
              (pair s fresh_next empty x r))
    allocated-Outcome L x r = rw (==-ne (s.next + 1) 0 (p_ne s fresh_next empty)) (
        launched-Outcome x r (lib.call "pthread_create" (pos s.next ∷ []))
          (lib.call "pthread_attr_destroy" []) (lib.out "pthread_create" (pos s.next ∷ [])))

    module _ (L : ℕ) (caller : LuaState) (nL : L ≢ 0) (at_L : s.cell L ≡ some (lua_state caller))
        (room : oom (s.next + 1) ≡ false) where
      started-Outcome :
          (x : LuaState) (answer : Sent)
          → Outcome s (
              started api lib oom slot dumps globals depth L s.next answer
                (child s fresh_next empty x))
      started-Outcome x (Sent.refused i) = rw (close-child s fresh_next empty x) (
          must-Outcome "pthread_attr_destroy" (without_child s fresh_next empty)
            (raise (arg_error i "non-serializable value")) (Same-without s fresh_next empty)
            (rejected _ _ (Same-without s fresh_next empty)))
      started-Outcome x (sent ws) =
          let filled : LuaState = record x { stack = ws } in
          rw
            (
              load-child s fresh_next empty x,
              store-child s fresh_next empty x filled,
              alloc-child s fresh_next empty oom filled (record { refs = 0; handle = pos 0 }) room,
            )
            (allocated-Outcome L filled (record { refs = 0; handle = pos 0 }))

      answered-Outcome :
          (r : Copied (List Value))
          → Ends r
          → Outcome s (
              (answered api lib oom slot dumps globals depth s.next new_state r
                  >>= started api lib oom slot dumps globals depth L s.next)
                (child s fresh_next empty new_state))
      answered-Outcome (copied ws more) h =
          rw (store-child s fresh_next empty new_state (record new_state { closures = more }))
            (started-Outcome (record new_state { closures = more }) (sent ws))
      answered-Outcome (Copied.refused i) h = started-Outcome new_state (Sent.refused i)
      answered-Outcome out_of_stack h = elim h [ ]

      module _
          (ends : (idx : ℕ) (vs : List Value)
            → Ends (copyn slot dumps caller.closures globals depth idx vs [])) where
        copied-Outcome :
            (idx : ℕ) (vs : List Value)
            → Outcome s (
                (copy_values api lib oom slot dumps globals depth L s.next idx vs
                    >>= started api lib oom slot dumps globals depth L s.next)
                  (child s fresh_next empty new_state))
        unfolding copy_values
        copied-Outcome idx vs =
            let apart : s.next ≢ L = λ e. ground (arith, empty L, at_L) in
            let there : (child s fresh_next empty new_state).cell L ≡ some (lua_state caller) =
              update_other s.cell s.next L _ apart ∙ at_L in
            rw
              (
                load-done L (child s fresh_next empty new_state) nL there,
                load-child s fresh_next empty new_state,
              )
              (answered-Outcome (copyn slot dumps caller.closures globals depth idx vs [])
                (ends idx vs))

        with_state-Outcome :
            (fnidx : ℕ) (vs : List Value)
            → Outcome s (with_state api lib oom slot dumps globals depth L fnidx vs s)
        with_state-Outcome fnidx vs = elim (Bool-cases (oom s.next)) [
          | inl full ↦
              let wasted : alloc oom (lua_state new_state) s
                  ≡ done 0 (record s { next = s.next + 1 }) =
                unfold alloc in ground arith in
              let same : Same s (record s { next = s.next + 1 }) = record {
                cells = λ q. refl;
                uds = refl;
                next = omega arith;
              } in
              rw wasted (
                must-Outcome "pthread_attr_destroy" _ (fatal "luaL_newstate" lib.enomem) same
                  (rejected _ _ same))
          | inr more ↦
              let made : alloc oom (lua_state new_state) s
                  ≡ done s.next (child s fresh_next empty new_state) =
                unfold alloc in ground arith in
              rw (made, ==-ne s.next 0 (n_ne s fresh_next empty)) (copied-Outcome fnidx vs)
        ]

        with_function-Outcome :
            (fnidx : ℕ) (vs : List Value)
            → Outcome s (with_function api lib oom slot dumps globals depth L fnidx vs s)
        with_function-Outcome fnidx (Value.function f ∷ vs) =
            with_state-Outcome fnidx (Value.function f ∷ vs)
        with_function-Outcome fnidx (Value.cfunction f ∷ vs) =
            with_state-Outcome fnidx (Value.cfunction f ∷ vs)
        with_function-Outcome fnidx vs =
            must-Outcome "pthread_attr_destroy" s (raise (arg_error fnidx "function expected"))
              (Same-self s fresh_next empty) (rejected _ _ (Same-self s fresh_next empty))

        with_arguments-Outcome :
            (args : List Value)
            → Outcome s (with_arguments api lib oom slot dumps globals depth L args s.uds s)
        with_arguments-Outcome (Value.table vs fs ∷ rest) =
            elim (Bool-cases (checkattr lib s.uds fs)) [
              | inl ok ↦ rw ok (with_function-Outcome 2 rest)
              | inr bad ↦ rw bad (
                  must-Outcome "pthread_attr_destroy" s (raise (arg_error 1 "invalid attr table"))
                    (Same-self s fresh_next empty) (rejected _ _ (Same-self s fresh_next empty)))
            ]
        with_arguments-Outcome args = with_function-Outcome 1 args

        -- Where fresh addresses are unused, the state of the caller is open, `malloc` gives memory for the thread
        -- and the copies end: `create` returns a new thread with one reference and a new Lua state, or it
        -- fails and leaves no state, no memory and no userdata behind on the heap, whatever the library
        -- answers.
        pub l_pthread_create-Outcome :
            (args : List Value)
            → Outcome s (l_pthread_create api lib oom slot dumps globals depth L args s)
        unfolding l_pthread_create
        l_pthread_create-Outcome args =
            must-Outcome "pthread_attr_init" s
              (λ s. with_arguments api lib oom slot dumps globals depth L args s.uds s)
              (Same-self s fresh_next empty) (with_arguments-Outcome args)

    -- Where fresh addresses are unused, the state of the caller is open, the attributes are initialised and a
    -- Lua state is made, but `malloc` gives no memory for the thread: a `create` without a table whose
    -- function and arguments are copied closes the state of its caller and then uses it.
    pub l_pthread_create-closed :
        (L : ℕ) (caller : LuaState)
        → L ≢ 0
        → s.cell L ≡ some (lua_state caller)
        → oom s.next ≡ false
        → oom (s.next + 1) ≡ true
        → lib.call "pthread_attr_init" [] ≡ 0
        → (f : ℕ) (vs ws : List Value) (more : Closures)
        → copyn slot dumps caller.closures globals depth 1 (Value.function f ∷ vs) []
          ≡ copied ws more
        → l_pthread_create api lib oom slot dumps globals depth L (Value.function f ∷ vs) s ≡ fault
    unfolding l_pthread_create
    l_pthread_create-closed L caller nL at_L room full init f vs ws more copies =
        let apart : s.next ≢ L = λ e. ground (arith, empty L, at_L) in
        let there : (x : LuaState) → (child s fresh_next empty x).cell L ≡ some (lua_state caller) =
          λ x. update_other s.cell s.next L _ apart ∙ at_L in
        let made : alloc oom (lua_state new_state) s
            ≡ done s.next (child s fresh_next empty new_state) =
          unfold alloc in ground arith in
        let filled : LuaState = record new_state { closures = more; stack = ws } in
        let null : alloc oom (rcthread (record { refs = 0; handle = pos 0 }))
              (child s fresh_next empty filled)
            ≡ done 0 (record (child s fresh_next empty filled) { next = s.next + 1 + 1 }) =
          unfold alloc in ground arith in
        let last : World = record (child s fresh_next empty filled) { next = s.next + 1 + 1 } in
        let closed : World = record last { cell = update last.cell L none } in
        rw
          (
            init,
            made,
            ==-ne s.next 0 (n_ne s fresh_next empty),
            load-done L (child s fresh_next empty new_state) nL (there new_state),
            load-child s fresh_next empty new_state,
            copies,
            store-child s fresh_next empty new_state (record new_state { closures = more }),
            load-child s fresh_next empty (record new_state { closures = more }),
            store-child s fresh_next empty (record new_state { closures = more }) filled,
            null,
            free-done L last nL (there filled),
            load-fault L closed (update_self last.cell L none),
          )
          refl
