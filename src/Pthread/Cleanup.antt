-- ===== src/Pthread/Cleanup.antt =====
-- The cleanup handlers of libpthread/lua_pthread.c, and `tpush`, `tpop`, `tpack`, `tunpack` of utils.h.
-- A handler is a table of a function and its arguments; the cleanup stack of a Lua state is a table
-- of handlers, the last pushed at its end.
pub mod Order
use flualibs.Common.{
  ℕ, zero, suc, ◌+◌, ◌-◌, if◌then◌else◌, Bool, true, false, List, [], ◌∷◌, ◌++◌, length,
}
use flualibs.Lua.{Value, Items, last, item, length_items, Fields}
use flualibs.Lua.Stack.{drop, take, insert, top_values}
use flualibs.Lua.Run.{Cmd, Run, done, raised, fault, error, raise, pure, undefined, ◌>>=◌}

abbrev pub CleanupStack : Type 0
CleanupStack = List Value

abbrev pub items_of : List Value → Items
items_of [] = last
items_of (v ∷ vs) = item v (items_of vs)

-- The elements 1 to `n` of a sequence, nil where there is none.
abbrev pub elements : ℕ → Items → List Value
elements zero vs = []
elements (suc n) last = Value.nil ∷ elements n last
elements (suc n) (item v vs) = v ∷ elements n vs

-- `tpack(L, n)` on the stack: its `n` upper values become one table.
unfoldable pub tpack : ℕ → List Value → List Value
tpack n stack =
    take (length stack - n) stack
    ++ Value.table (items_of (drop (length stack - n) stack)) Fields.end ∷ []

-- `tpush`: the value at the top goes to the end of the table.
unfoldable pub tpush : Value → CleanupStack → CleanupStack
tpush v stack = stack ++ v ∷ []

-- `tpop`: the value at the end, or nil, and the table without it.
unfoldable pub tpop : CleanupStack → Value × CleanupStack
tpop [] = (Value.nil, [])
tpop (v ∷ []) = (v, [])
tpop (v ∷ w ∷ vs) = let (h, rest) = tpop (w ∷ vs) in (h, v ∷ rest)

abbrev to_boolean : List Value → Bool
to_boolean [] = false
to_boolean (Value.nil ∷ vs) = false
to_boolean (Value.absent ∷ vs) = false
to_boolean (Value.boolean b ∷ vs) = b
to_boolean (v ∷ vs) = true

-- `border` is what `luaL_len` gives for a table, and `pcall` calls a function with its arguments: whether
-- it ended without an error, with its results or its error.
module _ (border : Items → ℕ) (pcall : Value → List Value → Bool × List Value) where
  -- `tunpack`: the elements of the table, which they replace on the stack.
  unfoldable pub tunpack : Value → Cmd CleanupStack (List Value)
  tunpack (Value.table vs fs) = pure (elements (border vs) vs)
  tunpack v = raise (error "attempt to get length")

  -- The results of `lua_pcall` on the unpacked handler; it needs a function.
  abbrev pub called : List Value → Cmd CleanupStack (Bool × List Value)
  called [] = undefined
  called (f ∷ args) = pure (pcall f args)

  -- With the arguments on the stack, `idx` is the place after them.
  unfoldable pub l_pthread_cleanup_pop : List Value → Cmd CleanupStack (List Value)
  unfolding tpop tunpack
  l_pthread_cleanup_pop args stack =
      let (h, rest) = tpop stack in
      let idx = length args + 1 in
      if to_boolean args
      then (do
        handler ← tunpack h
        (status, results) ← called handler
        let values = insert (length args) (args ++ (results ++ Value.boolean status ∷ []))
        pure (top_values (length values - idx) values))
          rest
      else done
          (let values = args ++ h ∷ Value.boolean true ∷ [] in
            top_values (length values - idx) values)
          rest

  -- The packed handler is at the bottom of the stack.
  unfoldable pub push_bottom : List Value → Cmd CleanupStack (List Value)
  unfolding tpush
  push_bottom [] stack = fault
  push_bottom (packed ∷ above) stack = done [] (tpush packed stack)

  unfoldable pub l_pthread_cleanup_push : List Value → Cmd CleanupStack (List Value)
  unfolding tpack push_bottom
  l_pthread_cleanup_push args = push_bottom (tpack (length args) args)

  -- The loop of `thread_cleanup` from the first handler to the last: the calls that it makes. An error
  -- of `tunpack` or an empty handler stops it.
  unfoldable pub thread_cleanup : List Value → Run CleanupStack (List (Value × List Value))
  unfolding tunpack
  thread_cleanup [] = done [] []
  thread_cleanup (h ∷ hs) =
      (do
        handler ← tunpack h
        call ← function_of handler
        calls ← λ s. thread_cleanup hs
        pure (call ∷ calls))
        []
    where
      function_of : List Value → Cmd CleanupStack (Value × List Value)
      function_of [] = undefined
      function_of (f ∷ args) = pure (f, args)
