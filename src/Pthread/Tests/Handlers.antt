-- ===== src/Pthread/Tests/Handlers.antt =====
-- Concrete cleanup handlers for libpthread/lua_pthread.c.
use flualibs.Common.{◌≡◌, refl, Bool, true, List, [], ◌∷◌}
use flualibs.Common.Int.{pos}
use flualibs.Lua.{Value, length_items}
use flualibs.Lua.Run.{done, ◌>>◌}
use flualibs.Pthread.Cleanup.{CleanupStack, l_pthread_cleanup_pop, l_pthread_cleanup_push}
use flualibs.Pthread.Cleanup.Order.{packed, pop-push_executed}

-- A handler that answers with its arguments, without an error.
abbrev echo : Value → List Value → Bool × List Value
echo f vs = (true, vs)

abbrev handler : List Value
handler = Value.cfunction 1 ∷ Value.integer (pos 5) ∷ []

abbrev outer : CleanupStack
outer = packed (Value.cfunction 2 ∷ []) ∷ []

-- The status true of the handler is not among the results.
pop-push_executed_example :
    (l_pthread_cleanup_push length_items echo handler
        >> l_pthread_cleanup_pop length_items echo (Value.boolean true ∷ []))
      outer
    ≡ done (Value.integer (pos 5) ∷ []) outer
pop-push_executed_example =
    pop-push_executed length_items echo (Value.cfunction 1) (Value.integer (pos 5) ∷ [])
      (Value.boolean true ∷ []) outer refl refl

abbrev two_calls : List (Value × List Value)
two_calls = (Value.cfunction 2, []) ∷ (Value.cfunction 1, Value.integer (pos 5) ∷ []) ∷ []
