-- ===== src/Pthread/Create.antt =====
-- The constructors of libpthread/lua_pthread.c: mutexes, condition variables, read-write locks, keys,
-- barriers, once controls, rendezvous, and the handle of the calling thread.
use flualibs.Common.{
  ℕ, Bool, true, false, String, List, [], ◌∷◌, ◌==◌, if◌then◌else◌, ◌&&◌, none, some,
}
use flualibs.Common.Int.{ℤ, pos, to_int, to_word}
use flualibs.Lua.{Value, Fields, getfield, Meta}
use flualibs.Lua.Run.{Cmd, arg_error, pure, raise, Api, ◌>>=◌, ◌>>◌}
use flualibs.Utils.{fail, fatal, new}
use flualibs.Heap.{alloc, store, free}
use flualibs.Refcount.{refcount_init}
use flualibs.Pthread.Defs.{Rc, RcStore, Lib}

-- One `switch (lua_getfield(…))` of a `check…attr` function: a number goes to the setter, whose error
-- is a refusal, as is a value that is neither a number nor nil. A float without an integer gives 0.
abbrev pub set_number : Lib → String → Value → Bool
set_number lib setter Value.nil = true
set_number lib setter (Value.integer n) = lib.call setter (to_int n ∷ []) == 0
set_number lib setter (Value.float none) = lib.call setter (pos 0 ∷ []) == 0
set_number lib setter (Value.float (some n)) = lib.call setter (to_int n ∷ []) == 0
set_number lib setter v = false

-- Whether the function returns 0.
unfoldable pub checkmutexattr : Lib → Fields → Bool
checkmutexattr lib fs =
    set_number lib "pthread_mutexattr_setprioceiling" (getfield fs "prioceiling")
    && set_number lib "pthread_mutexattr_setprotocol" (getfield fs "protocol")
    && set_number lib "pthread_mutexattr_settype" (getfield fs "type")

unfoldable pub checkcondattr : Lib → Fields → Bool
checkcondattr lib fs =
    set_number lib "pthread_condattr_setclock" (getfield fs "clock")
    && set_number lib "pthread_condattr_setpshared" (getfield fs "pshared")

unfoldable pub checkrwlockattr : Lib → Fields → Bool
checkrwlockattr lib fs = set_number lib "pthread_rwlockattr_setpshared" (getfield fs "pshared")

unfoldable pub checkbarrierattr : Lib → Fields → Bool
checkbarrierattr lib fs = set_number lib "pthread_barrierattr_setpshared" (getfield fs "pshared")

-- A function of the library whose error is raised under its name.
abbrev pub must : {S : Type 0} → Lib → String → Cmd S (Unit {0})
must lib name = let error = lib.call name [] in if error == 0 then pure tt else fatal name error

abbrev pub fresh : ℤ → Rc
fresh handle = record { refs = 0; handle = handle }

abbrev pub counted : ℤ → Rc
counted handle = record { refs = refcount_init 1; handle = handle }

module _ (api : Api) (lib : Lib) (oom : ℕ → Bool) where
  -- The end of a constructor: the count is 1, and a userdata has the object.
  abbrev pub publish : Meta → ℕ → ℤ → Cmd RcStore (List Value)
  publish m p handle = do store p (counted handle); u ← new p m; pure (u ∷ [])

  -- After `pthread_…_init`: the attributes are destroyed, and any error frees the object.
  abbrev pub initialised :
      Meta → (attr_destroy : String) → (error error1 p : ℕ) → Cmd RcStore (List Value)
  initialised m attr_destroy error error1 p =
      if error1 == 0
      then (if error == 0 then publish m p (pos 0) else (do free p; pure (fail api error)))
      else free p >> fatal attr_destroy error1

  abbrev pub allocate_object :
      Meta → (attr_destroy init : String) → List ℤ → Cmd RcStore (List Value)
  allocate_object m attr_destroy init args = do
    p ← alloc oom (fresh (pos 0))
    if p == 0
        then must lib attr_destroy >> fatal "malloc" lib.enomem
        else initialised m attr_destroy (lib.call init (pos p ∷ args)) (lib.call attr_destroy []) p

  -- The switch on the type of the first argument.
  abbrev pub with_attr :
      (Fields → Bool) → String → Value → Cmd RcStore (List Value) → Cmd RcStore (List Value)
  with_attr check attr_destroy (Value.table vs fs) next =
      if check fs then next else must lib attr_destroy >> raise (arg_error 1 "invalid attr table")
  with_attr check attr_destroy Value.nil next = next
  with_attr check attr_destroy Value.absent next = next
  with_attr check attr_destroy v next =
      must lib attr_destroy >> raise (arg_error 1 "invalid argument")

  unfoldable pub l_pthread_mutex_new : Value → Cmd RcStore (List Value)
  unfolding checkmutexattr
  l_pthread_mutex_new attr = do
    must lib "pthread_mutexattr_init"
    with_attr (checkmutexattr lib) "pthread_mutexattr_destroy" attr
        (allocate_object Meta.mutex "pthread_mutexattr_destroy" "pthread_mutex_init" [])

  unfoldable pub l_pthread_cond_new : Value → Cmd RcStore (List Value)
  unfolding checkcondattr
  l_pthread_cond_new attr = do
    must lib "pthread_condattr_init"
    with_attr (checkcondattr lib) "pthread_condattr_destroy" attr
        (allocate_object Meta.cond "pthread_condattr_destroy" "pthread_cond_init" [])

  unfoldable pub l_pthread_rwlock_new : Value → Cmd RcStore (List Value)
  unfolding checkrwlockattr
  l_pthread_rwlock_new attr = do
    must lib "pthread_rwlockattr_init"
    with_attr (checkrwlockattr lib) "pthread_rwlockattr_destroy" attr
        (allocate_object Meta.rwlock "pthread_rwlockattr_destroy" "pthread_rwlock_init" [])

  -- The count of a barrier, an unsigned int; the error names the first argument in any case.
  abbrev pub with_count : Value → Cmd RcStore (List Value)
  with_count (Value.integer n) =
      allocate_object Meta.barrier "pthread_barrierattr_destroy" "pthread_barrier_init"
        (pos (to_word 32 n) ∷ [])
  with_count v = must lib "pthread_barrierattr_destroy" >> raise (arg_error 1 "integer expected")

  abbrev pub barrier_arguments : Value → Value → Cmd RcStore (List Value)
  barrier_arguments (Value.table vs fs) second =
      if checkbarrierattr lib fs
      then with_count second
      else must lib "pthread_barrierattr_destroy" >> raise (arg_error 1 "invalid attr table")
  barrier_arguments first second = with_count first

  unfoldable pub l_pthread_barrier_new : Value → Value → Cmd RcStore (List Value)
  unfolding checkbarrierattr
  l_pthread_barrier_new first second = do
    must lib "pthread_barrierattr_init"
    barrier_arguments first second

  unfoldable pub l_pthread_once_new : Cmd RcStore (List Value)
  l_pthread_once_new = do
    p ← alloc oom (fresh (pos 0))
    if p == 0 then fatal "malloc" lib.enomem else publish Meta.once p (pos 0)

  unfoldable pub l_pthread_self : Cmd RcStore (List Value)
  l_pthread_self = do
    p ← alloc oom (fresh (pos 0))
    if p == 0 then fatal "malloc" lib.enomem else publish Meta.pthread p (lib.out "pthread_self" [])

  -- A destructor is a light userdata, and anything else is no destructor.
  abbrev destructor_of : Value → ℕ
  destructor_of (Value.light q) = q
  destructor_of v = 0

  unfoldable pub l_pthread_key_create : Value → Cmd RcStore (List Value)
  l_pthread_key_create v = do
    p ← alloc oom (fresh (pos 0))
    if p == 0
        then fatal "malloc" lib.enomem
        else (let error = lib.call "pthread_key_create" (pos (destructor_of v) ∷ []) in
            if error == 0
            then publish Meta.key p (lib.out "pthread_key_create" (pos (destructor_of v) ∷ []))
            else (do free p; pure (fail api error)))

  -- A call whose answer is ignored.
  abbrev ignored : ℕ → Cmd RcStore (Unit {0})
  ignored error = pure tt

  unfoldable pub l_pthread_rendezvous_new : Cmd RcStore (List Value)
  l_pthread_rendezvous_new = do
    p ← alloc oom (fresh (pos 0))
    if p == 0
        then fatal "malloc" lib.enomem
        else (let error = lib.call "pthread_mutex_init" (pos p ∷ []) in
            let error1 = lib.call "pthread_cond_init" (pos p ∷ []) in
            if error == 0
            then (if error1 == 0
                then publish Meta.rendezvous p (pos 0)
                else ignored (lib.call "pthread_mutex_destroy" (pos p ∷ []))
                  >> (free p >> fatal "pthread_cond_init" error1))
            else free p >> fatal "pthread_mutex_init" error)
