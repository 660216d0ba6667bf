-- ===== src/Pthread/Threads.antt =====
-- The life of a thread in libpthread/lua_pthread.c: its Lua state, how it is started, how it ends and how
-- it is joined.
pub mod Joining
pub mod Memory
pub mod Starting
use flualibs.Common.{
  ℕ, ◌+◌, Bool, true, false, Option, none, some, String, List, [], ◌∷◌, ◌++◌, ◌==◌, ◌&&◌,
  if◌then◌else◌, get_elem?,
}
use flualibs.Common.Int.{ℤ, pos, to_int, to_word}
use flualibs.Lua.{Value, Items, Fields, getfield, Meta, same_meta, Userdata, Store}
use flualibs.Lua.Run.{
  Cmd, Run, done, raised, fault, aborted, out_of_fuel, arg_error, error, pure, raise, undefined,
  Api, checkinteger, optinteger, ◌>>=◌, ◌>>◌,
}
use flualibs.Utils.{fail, fatal, new, checkcookie}
use flualibs.Heap.{alloc, load, store, free}
use flualibs.Refcount.{refcount_init}
use flualibs.Pthread.Defs.{Rc, Lib}
use flualibs.Pthread.Attr.{checkattr}
use flualibs.Pthread.Create.{must, set_number, counted}
use flualibs.Pthread.Cleanup.{thread_cleanup}
use flualibs.Pthread.Copy.{Closures, Copied, copied, out_of_stack, copyn}
use flualibs.Pthread.Rendezvous.{Sent, sent, refused}

-- What a Lua state has that other threads see: its stack, its closures and its cleanup handlers.
pub record LuaState : Type 0 where
  pub stack : List Value
  pub closures : Closures
  pub handlers : List Value

-- The objects of the C heap here: Lua states, and `struct rcthread`.
pub data Object : Type 0 where
  lua_state : LuaState → Object
  rcthread : Rc → Object

abbrev pub World : Type 0
World = Store Object

abbrev pub new_state : LuaState
new_state = record { stack = []; closures = []; handlers = [] }

abbrev as_state : Object → Cmd World LuaState
as_state (lua_state x) = pure x
as_state (rcthread r) = undefined

abbrev as_thread : Object → Cmd World Rc
as_thread (lua_state x) = undefined
as_thread (rcthread r) = pure r

-- A use of a Lua state, undefined after `lua_close`.
abbrev pub load_state : ℕ → Cmd World LuaState
load_state l = do o ← load l; as_state o

abbrev pub lua_close : ℕ → Cmd World (Unit {0})
lua_close l = free l

-- The text of a thread that was cancelled.
abbrev pub canceled : List ℕ
canceled = 99 ∷ 97 ∷ 110 ∷ 99 ∷ 101 ∷ 108 ∷ 101 ∷ 100 ∷ []

abbrev pub rcthread_of : ℤ → Object
rcthread_of handle = rcthread (counted handle)

-- The parameters of `copyn`: `slot`, `dumps` and the depth of the C stack. A new table of globals is a
-- value of its state.
module _ (api : Api) (lib : Lib) (oom : ℕ → Bool) (slot : Bool) (dumps : ℕ → Bool) (globals : Value)
    (depth : ℕ) where
  -- What `copyn` answers, with the closures that the target has then. What it pushed before it refused
  -- a value is left out: the callers close the target or raise an error.
  abbrev pub answered : (to : ℕ) → LuaState → Copied (List Value) → Cmd World Sent
  answered to target (copied ws more) = do
    store to (lua_state (record target { closures = more }))
    pure (sent ws)
  answered to target (Copied.refused i) = pure (refused i)
  answered to target out_of_stack = undefined

  unfoldable pub copy_values : (from to idx : ℕ) → List Value → Cmd World Sent
  unfolding copyn
  copy_values from to idx vs = do
    source ← load_state from
    target ← load_state to
    answered to target (copyn slot dumps source.closures globals depth idx vs target.closures)

  -- The end of `l_pthread_create`, with the results of `pthread_create` and `pthread_attr_destroy`.
  abbrev pub launched : (l threadp creation destruction : ℕ) → ℤ → Cmd World (List Value)
  launched l threadp creation destruction handle =
      if destruction == 0
      then (if creation == 0
          then (do store threadp (rcthread_of handle); u ← new threadp Meta.pthread; pure (u ∷ []))
          else (do lua_close l; free threadp; pure (fail api creation)))
      else (do lua_close l; free threadp; fatal "pthread_attr_destroy" destruction)

  -- After the copy; `L` is the state of the caller. When `malloc` fails the state that is closed is `L`,
  -- which `attr_destroy` or `fatal` then uses.
  abbrev pub allocated : (L l threadp : ℕ) → Cmd World (List Value)
  allocated L l threadp =
      if threadp == 0
      then (do
        lua_close L
        closed ← load_state L
        must lib "pthread_attr_destroy"
        fatal "malloc" lib.enomem)
      else launched l threadp (lib.call "pthread_create" (pos l ∷ []))
          (lib.call "pthread_attr_destroy" []) (lib.out "pthread_create" (pos l ∷ []))

  abbrev pub started : (L l : ℕ) → Sent → Cmd World (List Value)
  started L l (refused i) = do
    lua_close l
    must lib "pthread_attr_destroy"
    raise (arg_error i "non-serializable value")
  started L l (sent ws) = do
    fresh ← load_state l
    store l (lua_state (record fresh { stack = ws }))
    threadp ← alloc oom (rcthread (record { refs = 0; handle = pos 0 }))
    allocated L l threadp

  -- The function and its arguments, from `fnidx` on.
  abbrev pub with_state : (L fnidx : ℕ) → List Value → Cmd World (List Value)
  with_state L fnidx vs = do
    l ← alloc oom (lua_state new_state)
    if l == 0
        then must lib "pthread_attr_destroy" >> fatal "luaL_newstate" lib.enomem
        else (do answer ← copy_values L l fnidx vs; started L l answer)

  abbrev pub with_function : (L fnidx : ℕ) → List Value → Cmd World (List Value)
  with_function L fnidx (Value.function f ∷ vs) = with_state L fnidx (Value.function f ∷ vs)
  with_function L fnidx (Value.cfunction f ∷ vs) = with_state L fnidx (Value.cfunction f ∷ vs)
  with_function L fnidx vs =
      must lib "pthread_attr_destroy" >> raise (arg_error fnidx "function expected")

  abbrev pub with_arguments : (L : ℕ) → List Value → List Userdata → Cmd World (List Value)
  with_arguments L (Value.table vs fs ∷ rest) uds =
      if checkattr lib uds fs
      then with_function L 2 rest
      else must lib "pthread_attr_destroy" >> raise (arg_error 1 "invalid attr table")
  with_arguments L args uds = with_function L 1 args

  unfoldable pub l_pthread_create : (L : ℕ) → List Value → Cmd World (List Value)
  unfolding copy_values
  l_pthread_create L args = do
    must lib "pthread_attr_init"
    s ← λ s. done s s
    with_arguments L args s.uds

  -- A thread runs its function, which is below its arguments, and leaves the status and the results.
  unfoldable pub thread_kfunction : (l : ℕ) (status : Bool) → List Value → Cmd World (Option ℕ)
  thread_kfunction l status results = do
    state ← load_state l
    store l (lua_state (record state { stack = Value.boolean status ∷ results }))
    pure (some l)

  -- `pcall` says whether a function ends without an error, with its results or the error.
  abbrev pub run_function :
      (pcall : Value → List Value → Bool × List Value) (l : ℕ) → List Value → Cmd World (Option ℕ)
  run_function pcall l [] = undefined
  run_function pcall l (f ∷ args) =
      let (status, results) = pcall f args in thread_kfunction l status results

  unfoldable pub thread_wrapper :
      (pcall : Value → List Value → Bool × List Value) (l : ℕ) → Cmd World (Option ℕ)
  unfolding thread_kfunction
  thread_wrapper pcall l = do
    state ← load_state l
    store l (lua_state (record state { handlers = [] }))
    run_function pcall l state.stack

  -- The handlers run on the state `l`, which is then closed; an error outside `lua_pcall` ends the
  -- process.
  abbrev pub cleaned : (l : ℕ) → Run (List Value) (List (Value × List Value)) → Cmd World (Unit {0})
  cleaned l (done calls hs) = lua_close l
  cleaned l (raised e hs) = λ s. aborted
  cleaned l fault = undefined
  cleaned l aborted = λ s. aborted
  cleaned l out_of_fuel = λ s. out_of_fuel

  -- `pthread_exit` runs the handler that `thread_wrapper` pushed, and its result is the state.
  unfoldable pub l_pthread_exit :
      (border : Items → ℕ) (pcall : Value → List Value → Bool × List Value) (l : ℕ)
      → List Value
      → Cmd World (Option ℕ)
  unfolding thread_cleanup
  l_pthread_exit border pcall l args = do
    state ← load_state l
    store l (lua_state (record state { stack = Value.boolean true ∷ args }))
    cleaned l (thread_cleanup border pcall state.handlers)
    pure (some l)

  abbrev pub joined_values : Cmd World (Unit {0}) → Sent → Cmd World (List Value)
  joined_values close (sent ws) = do close; pure ws
  joined_values close (refused i) = do
    close
    raise (error "thread returned a non-serializable value")

  -- The result of a thread, a state or PTHREAD_CANCELED. `peek` leaves the state open.
  abbrev pub take_result : (peek : Bool) (L : ℕ) → Option ℕ → Cmd World (List Value)
  take_result peek L none = pure (Value.boolean false ∷ Value.string canceled ∷ [])
  take_result peek L (some l) = do
    state ← load_state l
    answer ← copy_values l L 1 state.stack
    joined_values (if peek then pure tt else lua_close l) answer

  -- `join` is the function of the library on the handle of a thread: its error and the result.
  abbrev pub join_thread :
      (peek : Bool) (join : ℤ → ℕ × Option ℕ) (L threadp : ℕ) → Cmd World (List Value)
  join_thread peek join L threadp = do
    o ← load threadp
    r ← as_thread o
    if (join r.handle).0 == 0
        then take_result peek L (join r.handle).1
        else pure (fail api (join r.handle).0)

  unfoldable pub l_pthread_join : (join : ℤ → ℕ × Option ℕ) (L : ℕ) → Value → Cmd World (List Value)
  unfolding copy_values
  l_pthread_join join L v = do
    threadp ← checkcookie 1 Meta.pthread v
    join_thread false join L threadp

  unfoldable pub l_pthread_peekjoin_np :
      (join : ℤ → ℕ × Option ℕ) (L : ℕ) → Value → Cmd World (List Value)
  unfolding copy_values
  l_pthread_peekjoin_np join L v = do
    threadp ← checkcookie 1 Meta.pthread v
    join_thread true join L threadp

  -- The deadline is a part of the call of the library.
  unfoldable pub l_pthread_timedjoin_np :
      (join : ℤ × ℤ → ℤ → ℕ × Option ℕ) (L : ℕ) (v sec nsec : Value) → Cmd World (List Value)
  unfolding copy_values
  l_pthread_timedjoin_np join L v sec nsec = do
    threadp ← checkcookie 1 Meta.pthread v
    tv_sec ← checkinteger api 2 sec
    tv_nsec ← optinteger api 3 nsec (pos 0)
    join_thread false (join (tv_sec, tv_nsec)) L threadp
