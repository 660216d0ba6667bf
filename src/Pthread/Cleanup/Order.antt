-- ===== src/Pthread/Cleanup/Order.antt =====
-- What cleanup handlers of libpthread/lua_pthread.c give back when they are popped, and the order in
-- which the end of a thread runs them.
use flualibs.Common.{
  ℕ, ◌-◌, ◌≡◌, refl, ap, ◌∙◌, arith, Bool, true, false, List, [], ◌∷◌, ◌++◌, length,
}
use flualibs.Lua.{Value, Items, Fields}
use flualibs.Lua.Stack.{drop, take, to_front-append, insert-append, top_values-append}
use flualibs.Lua.Run.{done, ◌>>◌}
use flualibs.Pthread.Cleanup.{
  CleanupStack, items_of, elements, tpack, tpop, tunpack, to_boolean, push_bottom,
  l_pthread_cleanup_pop, l_pthread_cleanup_push,
}

elements-items_of : (vs : List Value) → elements (length vs) (items_of vs) ≡ vs
elements-items_of [] = refl
elements-items_of (v ∷ vs) = ap (λ xs. v ∷ xs) (elements-items_of vs)

tpop-append : (hs : CleanupStack) (h : Value) → tpop (hs ++ h ∷ []) ≡ (h, hs)
unfolding tpop
tpop-append [] h = refl
tpop-append (v ∷ []) h = refl
tpop-append (v ∷ w ∷ hs) h = ap (λ x. (x.0, v ∷ x.1)) (tpop-append (w ∷ hs) h)

-- A handler of a function and its arguments, as `push` packs it.
abbrev pub packed : List Value → Value
packed vs = Value.table (items_of vs) Fields.end

tpack-packed : (vs : List Value) → tpack (length vs) vs ≡ packed vs ∷ []
unfolding tpack
tpack-packed vs =
    let n : length vs - length vs ≡ 0 = omega arith in
    ap (λ k. take k vs ++ Value.table (items_of (drop k vs)) Fields.end ∷ []) n

module _ (border : Items → ℕ) (pcall : Value → List Value → Bool × List Value) where
  push-done :
      (vs : List Value) (hs : CleanupStack)
      → l_pthread_cleanup_push border pcall vs hs ≡ done [] (hs ++ packed vs ∷ [])
  unfolding l_pthread_cleanup_push push_bottom
  push-done vs hs = ap (λ x. push_bottom border pcall x hs) (tpack-packed vs)

  tunpack-packed :
      (vs : List Value) (hs : CleanupStack)
      → border (items_of vs) ≡ length vs
      → tunpack border pcall (packed vs) hs ≡ done vs hs
  unfolding tunpack
  tunpack-packed vs hs exact =
      ap (λ n. done (elements n (items_of vs)) hs) exact
      ∙ ap (λ xs. done xs hs) (elements-items_of vs)

  -- A handler that is pushed and popped without being run leaves the cleanup stack as it was, and the
  -- answer is true.
  pub pop-push_unused :
      (vs args : List Value) (hs : CleanupStack)
      → to_boolean args ≡ false
      → (l_pthread_cleanup_push border pcall vs >> l_pthread_cleanup_pop border pcall args) hs
        ≡ done (Value.boolean true ∷ []) hs
  unfolding l_pthread_cleanup_pop
  pop-push_unused vs args hs kept =
      rw
        (
          push-done vs hs,
          tpop-append hs (packed vs),
          kept,
          top_values-append args (packed vs) (Value.boolean true ∷ []),
        )
        refl

  -- A handler whose table has its arguments as its border is run when it is popped with `execute`, and
  -- the cleanup stack is as it was before the push. Only the results of the handler are
  -- returned: whether it ended without an error is not among them.
  pub pop-push_executed :
      (f : Value) (vs args : List Value) (hs : CleanupStack)
      → to_boolean args ≡ true
      → border (items_of (f ∷ vs)) ≡ length (f ∷ vs)
      → (l_pthread_cleanup_push border pcall (f ∷ vs) >> l_pthread_cleanup_pop border pcall args) hs
        ≡ done (pcall f vs).1 hs
  unfolding l_pthread_cleanup_pop
  pop-push_executed f vs args hs run exact =
      rw
        (
          push-done (f ∷ vs) hs,
          tpop-append hs (packed (f ∷ vs)),
          run,
          exact,
          elements-items_of vs,
          insert-append args ((pcall f vs).1 ++ Value.boolean (pcall f vs).0 ∷ []),
          to_front-append (pcall f vs).1 (Value.boolean (pcall f vs).0),
          top_values-append args (Value.boolean (pcall f vs).0) (pcall f vs).1,
        )
        refl

  -- The handlers that are pushed one after another, as functions and arguments.
  abbrev pub all_packed : List (Value × List Value) → CleanupStack
  all_packed [] = []
  all_packed ((f, vs) ∷ calls) = packed (f ∷ vs) ∷ all_packed calls

  abbrev pub Exact : List (Value × List Value) → Type 0
  Exact [] = Unit
  Exact ((f, vs) ∷ calls) = (border (items_of (f ∷ vs)) ≡ length (f ∷ vs)) × Exact calls
