-- ===== src/Pthread/Tests/Lives.antt =====
-- Concrete threads of libpthread/lua_pthread.c that are started, end and are joined.
use mathlib.Core.Path.{subst}
use mathlib.Core.Option.{some-injective}
use flualibs.Common.{
  ℕ, zero, suc, ◌<◌, get_elem?, ◌≡◌, refl, arith, Bool, true, none, some, List, [], ◌∷◌, update,
  ◌==◌,
}
use flualibs.Common.Int.{pos}
use flualibs.Lua.{Value, Items, Meta}
use flualibs.Lua.Run.{done, fault, ◌>>=◌}
use flualibs.Utils.Cookies.{HasCookie}
use flualibs.Pthread.Created.{userdata_for}
use flualibs.Pthread.Copy.Depth.{AllWithin, nesting, copyn-Ends}
use flualibs.Pthread.Copy.{Closure, Closures, copyn, copied}
use flualibs.Pthread.Cleanup.{thread_cleanup}
use flualibs.Pthread.Threads.{
  LuaState, lua_state, rcthread, World, new_state, thread_kfunction, l_pthread_exit, l_pthread_join,
  l_pthread_create,
}
use flualibs.Pthread.Threads.Joining.{
  l_pthread_join-thread_kfunction, l_pthread_join-l_pthread_exit,
}
use flualibs.Pthread.Threads.Memory.{Outcome}
use flualibs.Pthread.Threads.Starting.{l_pthread_create-Outcome}
use flualibs.Pthread.Tests.{api, lib, plenty}

-- The caller is the state 1, the thread is at 2 and its state is 3.
abbrev thread_running : World
thread_running = record {
  cell =
      update
        (update (update (λ q. none) 1 (some (lua_state new_state))) 2
          (some (rcthread (record { refs = 1; handle = pos 9 }))))
        3 (some (lua_state new_state));
  next = 4;
  uds = userdata_for Meta.pthread 2 ∷ [];
}

thread_of : HasCookie thread_running 0 Meta.pthread 2
thread_of = record { data_of = userdata_for Meta.pthread 2; at = refl; kind = refl; points = refl }

abbrev results : List Value
results = Value.integer (pos 5) ∷ Value.nil ∷ []

l_pthread_join-thread_kfunction_example :
    (thread_kfunction api lib plenty true (λ proto. true) Value.nil 1 3 true results >>= λ result.
    l_pthread_join api lib plenty true
      (λ proto. true)
      Value.nil
      1
      (λ handle. (0, result))
      1
      (Value.userdata 0))
      thread_running
    ≡ done
        (Value.boolean true ∷ results)
        (record thread_running { cell = update thread_running.cell 3 none })
l_pthread_join-thread_kfunction_example =
    l_pthread_join-thread_kfunction api lib plenty true (λ proto. true) Value.nil 0 thread_running 1
      3 2 0 new_state new_state (record { refs = 1; handle = pos 9 }) thread_of (omega arith)
      (omega arith) (omega arith) (omega arith) refl refl refl true results (refl, (refl, tt))

abbrev no_border : Items → ℕ
no_border vs = 0

abbrev no_call : Value → List Value → Bool × List Value
no_call f vs = (true, [])

no_handlers : thread_cleanup no_border no_call [] ≡ done [] []
unfolding thread_cleanup
no_handlers = refl

l_pthread_join-l_pthread_exit_example :
    (l_pthread_exit api lib plenty true (λ proto. true) Value.nil 1 no_border no_call 3 results
        >>= λ result.
            l_pthread_join api lib plenty true
              (λ proto. true)
              Value.nil
              1
              (λ handle. (0, result))
              1
              (Value.userdata 0))
      thread_running
    ≡ fault
l_pthread_join-l_pthread_exit_example =
    l_pthread_join-l_pthread_exit api lib plenty true (λ proto. true) Value.nil 1 thread_running 1 3
      2 0 new_state (record { refs = 1; handle = pos 9 }) thread_of (omega arith) (omega arith) refl
      refl no_border no_call [] [] no_handlers results

-- A state with one function, whose upvalue is a number.
abbrev one_function : Closures
one_function = record { proto = 10; upvalues = ("n", Value.integer (pos 7)) ∷ [] } ∷ []

abbrev caller : LuaState
caller = record { stack = []; closures = one_function; handlers = [] }

abbrev alone : World
alone = record { cell = update (λ q. none) 1 (some (lua_state caller)); next = 2; uds = [] }

ranked : (f : ℕ) (c : Closure) → get_elem? one_function f ≡ some c → AllWithin (λ g. 0) 0 c.upvalues
ranked zero c e =
    subst (λ d. AllWithin (λ g. 0) 0 d.upvalues) (some-injective _ _ e) (omega arith, tt)
ranked (suc f) c e = absurd (ground arith)

shallow : (v : Value) → nesting (λ g. 0) v < 2
shallow (Value.function f) = omega arith
shallow v = omega arith

l_pthread_create-Outcome_example : Outcome alone (
    l_pthread_create api lib plenty true
      (λ proto. true)
      Value.nil
      2
      1
      (Value.function 0 ∷ Value.nil ∷ [])
      alone)
l_pthread_create-Outcome_example =
    l_pthread_create-Outcome alone (omega arith) (λ q le. ground arith) api lib plenty true
      (λ proto. true) Value.nil 2 1 caller (omega arith) refl refl
      (λ idx vs.
        copyn-Ends true (λ proto. true) one_function Value.nil (λ g. 0) ranked 2 shallow idx vs [])
      (Value.function 0 ∷ Value.nil ∷ [])

-- Memory for the thread is what is missing.
abbrev full_at_three : ℕ → Bool
full_at_three p = p == 3

function_copied :
    copyn true (λ proto. true) one_function Value.nil 2 1 (Value.function 0 ∷ []) []
    ≡ copied (Value.function 0 ∷ []) one_function
unfolding copyn
function_copied = refl
