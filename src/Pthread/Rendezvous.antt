-- ===== src/Pthread/Rendezvous.antt =====
-- The exchange at a rendezvous in libpthread/lua_pthread.c: threads that lock its mutex, wait on its
-- condition and copy values from stack to stack, one access at a time.
pub mod Calls
pub mod Registered
pub mod Views
pub mod Meeting
pub mod Faults
pub mod Plain
use flualibs.Common.{
  ℕ, suc, ◌+◌, ◌-◌, ◌≤◌, ◌≡◌, ◌≢◌, ◌⊎◌, Bool, true, false, Option, none, some, List, [], ◌∷◌, ◌++◌,
  length, if◌then◌else◌, update,
}
use flualibs.Common.Int.{ℤ, pos, negsuc}
use flualibs.Lua.{Value}
use flualibs.Lua.Stack.{drop, take, top_values, insert}

-- The error messages, as texts that Lua raises.
pub data Message : Type 0 where
  bad_argument : ℤ → Message
  other_thread : Message

-- What `copyn` answers for the values from an index on: their copies, or the index of one that is refused.
pub data Sent : Type 0 where
  sent : List Value → Sent
  refused : ℕ → Sent

abbrev pub Stack : Type 0
Stack = List Value

-- `lua_tointeger(L, -1)`, where only integers stand for numbers: the counts are pushed as such.
abbrev pub integer_of : Value → ℤ
integer_of (Value.integer n) = n
integer_of v = pos 0

abbrev pub top_integer : Stack → ℤ
top_integer [] = pos 0
top_integer (v ∷ []) = integer_of v
top_integer (v ∷ w ∷ vs) = top_integer (w ∷ vs)

-- `lua_pop(L, 1)`.
abbrev pub pop : Stack → Stack
pop [] = []
pop (v ∷ []) = []
pop (v ∷ w ∷ vs) = v ∷ pop (w ∷ vs)

-- A count that was pushed is never negative here.
abbrev pub count_of : ℤ → ℕ
count_of (pos n) = n
count_of (negsuc n) = 0

module _ (copyn : ℕ → List Value → Sent) (text : Message → List ℕ) where
  abbrev message : Message → Value
  message m = Value.string (text m)

  -- The end of `exchange`: the arguments go to the waiter. What a refused copy has pushed below the messages
  -- is left out, since `lua_error` takes the top.
  abbrev pub answer_waiter : (mine theirs : Stack) → ℤ → (narg : ℕ) → Sent → ℤ × Stack × Stack
  answer_waiter mine theirs nres narg (sent vs) =
      (nres, mine, theirs ++ (vs ++ Value.integer (pos narg) ∷ []))
  answer_waiter mine theirs nres narg (refused i) = (
    negsuc 0,
    mine ++ message (bad_argument (pos (i - 1))) ∷ [],
    theirs ++ (message other_thread ∷ Value.integer (negsuc 0) ∷ []),
  )

  -- The results of the waiter have been copied, or not.
  abbrev pub take_results : (mine theirs : Stack) → ℤ → (idx narg : ℕ) → Sent → ℤ × Stack × Stack
  take_results mine theirs nres idx narg (refused i) = (
    negsuc 0,
    mine ++ message other_thread ∷ [],
    theirs ++ (message (bad_argument (pos (i - 1))) ∷ Value.integer (negsuc 0) ∷ []),
  )
  take_results mine theirs nres idx narg (sent vs) =
      answer_waiter (mine ++ vs) theirs nres narg (copyn idx (take narg (drop (idx - 1) mine)))

  -- `exchange(L, l, idx, narg)`: the number of results or -1, and both stacks. The waiter's stack ends with
  -- the count of its values.
  unfoldable pub exchange : (mine theirs : Stack) (idx narg : ℕ) → ℤ × Stack × Stack
  exchange mine theirs idx narg =
      let nres = top_integer theirs in
      let rest = pop theirs in
      take_results mine rest nres idx narg
        (copyn (length rest - count_of nres + 1) (top_values (count_of nres) rest))

-- The values of a call: results, an error that is raised, or false at a timeout.
pub data Answer : Type 0 where
  returned : List Value → Answer
  raised : Option Value → Answer

abbrev pub last_value : Stack → Option Value
last_value [] = none
last_value (v ∷ []) = some v
last_value (v ∷ w ∷ vs) = last_value (w ∷ vs)

-- The place `lua_gettop(L) - ++nres` of `timedexchange`, after true was pushed: `lua_insert` counts from 1.
abbrev pub answer_timed : ℕ → Stack → List Value
answer_timed nres stack =
    let pushed = stack ++ Value.boolean true ∷ [] in
    top_values (suc nres) (insert (length pushed - suc nres - 1) pushed)

-- The end of `exchange` and of `timedexchange`, where no result is below -2.
abbrev pub leave : Bool → ℤ → Stack → Answer
leave false (pos n) stack = returned (top_values n stack)
leave false (negsuc n) stack = raised (last_value stack)
leave true (pos n) stack = returned (answer_timed n stack)
leave true (negsuc n) stack = elim n [
  | ℕ.zero ↦ raised (last_value stack)
  | suc k ↦ returned (Value.boolean false ∷ [])
]

-- Where a thread stands, in a call with a deadline or without: before the lock, inside before the test of
-- `waiter`, blocked on the condition, woken or expired without the mutex, and before the unlock.
pub data Pc : Type 0 where
  outside : Pc
  entered : (timed : Bool) → Pc
  inside : (timed : Bool) → Pc
  waiting : (timed : Bool) → Pc
  woken : (timed : Bool) → Pc
  expired : Pc
  leaving : (timed : Bool) → (nres : ℤ) → Pc
  ended : Answer → Pc

-- The mutex and the field `waiter`, and each thread with the stack of its Lua state.
pub record System : Type 0 where
  pub owner : Option ℕ
  pub waiter : Option ℕ
  pub pc : ℕ → Pc
  pub stack : ℕ → Stack

-- The values before the arguments: the rendezvous, and the two numbers of a deadline.
abbrev pub base : Bool → ℕ
base false = 1
base true = 3

abbrev pub narg_of : Bool → Stack → ℕ
narg_of timed stack = length stack - base timed

abbrev pub at : System → ℕ → Pc → System
at s i p = record s { pc = update s.pc i p }

abbrev pub fresh_system : System
fresh_system = record { owner = none; waiter = none; pc = λ i. Pc.outside; stack = λ i. [] }

-- One step of the thread `i`. `faults` admits what the code has no answer to: wakeups of a condition that
-- nobody signalled, and deadlines that pass while a thread waits. Errors of the locks themselves are
-- left out.
module _ (copyn : ℕ → List Value → Sent) (text : Message → List ℕ) (faults : Bool) where
  -- The thread `i`, which has the mutex, swaps values with `j`.
  unfoldable pub exchanged : System → (i j : ℕ) → (timed : Bool) → System
  unfolding exchange
  exchanged s i j timed =
      let (nres, mine, theirs) =
        exchange copyn text (s.stack i) (s.stack j) (base timed + 1) (narg_of timed (s.stack i)) in
      record (at s i (Pc.leaving timed nres)) {
        waiter = none;
        stack = update (update s.stack j theirs) i mine;
      }

  pub data Step (s : System) : System → Type 0 where
    -- A call from Lua with the rendezvous and the arguments on the stack.
    call :
        (i : ℕ) (timed : Bool) (stack : Stack)
        → (s.pc i ≡ Pc.outside) ⊎ ((a : Answer) × (s.pc i ≡ Pc.ended a))
        → base timed ≤ length stack
        → Step s (record (at s i (Pc.entered timed)) { stack = update s.stack i stack })
    lock :
        (i : ℕ) (timed : Bool)
        → s.pc i ≡ Pc.entered timed
        → s.owner ≡ none
        → Step s (record (at s i (Pc.inside timed)) { owner = some i })
    lock_expired :
        (i : ℕ)
        → s.pc i ≡ Pc.entered true
        → Step s (at s i (Pc.ended (returned (Value.boolean false ∷ []))))
    -- No thread waits: the count is pushed and the thread waits, without the mutex.
    wait :
        (i : ℕ) (timed : Bool)
        → s.pc i ≡ Pc.inside timed
        → s.waiter ≡ none
        → Step s (record (at s i (Pc.waiting timed)) {
          owner = none;
          waiter = some i;
          stack =
              update s.stack i (s.stack i ++ Value.integer (pos (narg_of timed (s.stack i))) ∷ []);
        })
    -- The thread `j` waits: `exchange`, and `pthread_cond_signal` wakes a thread `k` that waits.
    swap :
        (i j k : ℕ) (timed deadline : Bool)
        → s.pc i ≡ Pc.inside timed
        → s.waiter ≡ some j
        → s.pc k ≡ Pc.waiting deadline
        → Step s (exchanged (at s k (Pc.woken deadline)) i j timed)
    -- The same where no thread waits, and the signal is lost.
    swap_unheard :
        (i j : ℕ) (timed : Bool)
        → s.pc i ≡ Pc.inside timed
        → s.waiter ≡ some j
        → ((k : ℕ) (deadline : Bool) → s.pc k ≢ Pc.waiting deadline)
        → Step s (exchanged s i j timed)
    -- `pthread_cond_wait` returns without a signal.
    spurious :
        (i : ℕ) (timed : Bool)
        → faults ≡ true
        → s.pc i ≡ Pc.waiting timed
        → Step s (at s i (Pc.woken timed))
    -- The deadline of a thread that waits has passed.
    expire : (i : ℕ) → faults ≡ true → s.pc i ≡ Pc.waiting true → Step s (at s i Pc.expired)
    -- The mutex is taken again; the count is taken from the stack.
    resume :
        (i : ℕ) (timed : Bool)
        → s.pc i ≡ Pc.woken timed
        → s.owner ≡ none
        → Step s (record (at s i (Pc.leaving timed (top_integer (s.stack i)))) {
          owner = some i;
          stack = update s.stack i (pop (s.stack i));
        })
    -- After the deadline: `waiter` is NULL, and the result is -2.
    resume_expired :
        (i : ℕ)
        → s.pc i ≡ Pc.expired
        → s.owner ≡ none
        → Step s (record (at s i (Pc.leaving true (negsuc 1))) { owner = some i; waiter = none })
    unlock :
        (i : ℕ) (timed : Bool) (nres : ℤ)
        → s.pc i ≡ Pc.leaving timed nres
        → s.owner ≡ some i
        → Step s (record (at s i (Pc.ended (leave timed nres (s.stack i)))) { owner = none })

  pub data Reach : System → Type 0 where
    start : Reach fresh_system
    step : {s t : System} → Reach s → Step s t → Reach t
