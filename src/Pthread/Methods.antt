-- ===== src/Pthread/Methods.antt =====
-- The methods of libpthread/lua_pthread.c that call one function of the pthread library on the object
-- of their first argument, and the tables that name them.
pub mod Quiet
pub mod Unchanged
use flualibs.Common.{ℕ, ◌+◌, true, not, List, [], ◌∷◌, ◌==◌, if◌then◌else◌}
use flualibs.Common.Int.{ℤ, pos, negsuc, to_int}
use flualibs.Lua.{Value, Meta}
use flualibs.Lua.Run.{Cmd, pure, Api, checkinteger, optinteger, ◌>>=◌}
use flualibs.Utils.{success, fail, checklightuserdata, checkcookie}
use flualibs.Heap.{load}
use flualibs.Pthread.Defs.{RcStore, Lib, status}

-- A `struct timespec` from two arguments, the second of which may be left out.
abbrev pub timespec : Api → ℕ → Value → Value → Cmd RcStore (ℤ × ℤ)
timespec api i sec nsec = do
  a ← checkinteger api i sec
  b ← optinteger api (i + 1) nsec (pos 0)
  pure (a, b)

-- The text "unknown error".
abbrev pub unknown_error : List ℕ
unknown_error = 117 ∷ 110 ∷ 107 ∷ 110 ∷ 111 ∷ 119 ∷ 110 ∷ 32 ∷ 101 ∷ 114 ∷ 114 ∷ 111 ∷ 114 ∷ []

module _ (api : Api) (lib : Lib) where
  unfoldable pub l_pthread_cancel : Value → Cmd RcStore (List Value)
  l_pthread_cancel t = do
    p ← checkcookie 1 Meta.pthread t
    r ← load p
    pure (status api (lib.call "pthread_cancel" (r.handle ∷ [])))

  unfoldable pub l_pthread_detach : Value → Cmd RcStore (List Value)
  l_pthread_detach t = do
    p ← checkcookie 1 Meta.pthread t
    r ← load p
    pure (status api (lib.call "pthread_detach" (r.handle ∷ [])))

  unfoldable pub l_pthread_resume_np : Value → Cmd RcStore (List Value)
  l_pthread_resume_np t = do
    p ← checkcookie 1 Meta.pthread t
    r ← load p
    pure (status api (lib.call "pthread_resume_np" (r.handle ∷ [])))

  unfoldable pub l_pthread_suspend_np : Value → Cmd RcStore (List Value)
  l_pthread_suspend_np t = do
    p ← checkcookie 1 Meta.pthread t
    r ← load p
    pure (status api (lib.call "pthread_suspend_np" (r.handle ∷ [])))

  unfoldable pub l_pthread_kill : Value → Value → Cmd RcStore (List Value)
  l_pthread_kill t sig = do
    p ← checkcookie 1 Meta.pthread t
    n ← checkinteger api 2 sig
    r ← load p
    pure (status api (lib.call "pthread_kill" (r.handle ∷ to_int n ∷ [])))

  unfoldable pub l_pthread_equal : Value → Value → Cmd RcStore (List Value)
  l_pthread_equal t1 t2 = do
    p ← checkcookie 1 Meta.pthread t1
    q ← checkcookie 2 Meta.pthread t2
    r ← load p
    v ← load q
    pure (Value.boolean (not (lib.call "pthread_equal" (r.handle ∷ v.handle ∷ []) == 0)) ∷ [])

  unfoldable pub l_pthread_mutex_lock : Value → Cmd RcStore (List Value)
  l_pthread_mutex_lock o = do
    p ← checkcookie 1 Meta.mutex o
    r ← load p
    pure (status api (lib.call "pthread_mutex_lock" (pos p ∷ [])))

  unfoldable pub l_pthread_mutex_trylock : Value → Cmd RcStore (List Value)
  l_pthread_mutex_trylock o = do
    p ← checkcookie 1 Meta.mutex o
    r ← load p
    pure (status api (lib.call "pthread_mutex_trylock" (pos p ∷ [])))

  unfoldable pub l_pthread_mutex_unlock : Value → Cmd RcStore (List Value)
  l_pthread_mutex_unlock o = do
    p ← checkcookie 1 Meta.mutex o
    r ← load p
    pure (status api (lib.call "pthread_mutex_unlock" (pos p ∷ [])))

  unfoldable pub l_pthread_mutex_timedlock : Value → Value → Value → Cmd RcStore (List Value)
  l_pthread_mutex_timedlock o sec nsec = do
    p ← checkcookie 1 Meta.mutex o
    (a, b) ← timespec api 2 sec nsec
    r ← load p
    pure (status api (lib.call "pthread_mutex_timedlock" (pos p ∷ a ∷ b ∷ [])))

  unfoldable pub l_pthread_mutex_getspinloops_np : Value → Cmd RcStore (List Value)
  l_pthread_mutex_getspinloops_np o = do
    p ← checkcookie 1 Meta.mutex o
    r ← load p
    let error = lib.call "pthread_mutex_getspinloops_np" (pos p ∷ [])
    pure (
        if error == 0
        then Value.integer (lib.out "pthread_mutex_getspinloops_np" (pos p ∷ [])) ∷ []
        else fail api error)

  unfoldable pub l_pthread_mutex_setspinloops_np : Value → Value → Cmd RcStore (List Value)
  l_pthread_mutex_setspinloops_np o count = do
    p ← checkcookie 1 Meta.mutex o
    n ← checkinteger api 2 count
    r ← load p
    pure (status api (lib.call "pthread_mutex_setspinloops_np" (pos p ∷ to_int n ∷ [])))

  unfoldable pub l_pthread_mutex_getyieldloops_np : Value → Cmd RcStore (List Value)
  l_pthread_mutex_getyieldloops_np o = do
    p ← checkcookie 1 Meta.mutex o
    r ← load p
    let error = lib.call "pthread_mutex_getyieldloops_np" (pos p ∷ [])
    pure (
        if error == 0
        then Value.integer (lib.out "pthread_mutex_getyieldloops_np" (pos p ∷ [])) ∷ []
        else fail api error)

  unfoldable pub l_pthread_mutex_setyieldloops_np : Value → Value → Cmd RcStore (List Value)
  l_pthread_mutex_setyieldloops_np o count = do
    p ← checkcookie 1 Meta.mutex o
    n ← checkinteger api 2 count
    r ← load p
    pure (status api (lib.call "pthread_mutex_setyieldloops_np" (pos p ∷ to_int n ∷ [])))

  -- The answer -1 is an error without a number.
  abbrev owned : ℤ → List Value
  owned (pos n) = Value.boolean (not (n == 0)) ∷ []
  owned (negsuc n) =
      if n == 0 then Value.nil ∷ Value.string unknown_error ∷ [] else Value.boolean true ∷ []

  unfoldable pub l_pthread_mutex_isowned_np : Value → Cmd RcStore (List Value)
  l_pthread_mutex_isowned_np o = do
    p ← checkcookie 1 Meta.mutex o
    r ← load p
    pure (owned (lib.out "pthread_mutex_isowned_np" (pos p ∷ [])))

  unfoldable pub l_pthread_cond_broadcast : Value → Cmd RcStore (List Value)
  l_pthread_cond_broadcast o = do
    p ← checkcookie 1 Meta.cond o
    r ← load p
    pure (status api (lib.call "pthread_cond_broadcast" (pos p ∷ [])))

  unfoldable pub l_pthread_cond_signal : Value → Cmd RcStore (List Value)
  l_pthread_cond_signal o = do
    p ← checkcookie 1 Meta.cond o
    r ← load p
    pure (status api (lib.call "pthread_cond_signal" (pos p ∷ [])))

  unfoldable pub l_pthread_cond_wait : Value → Value → Cmd RcStore (List Value)
  l_pthread_cond_wait o m = do
    p ← checkcookie 1 Meta.cond o
    q ← checkcookie 2 Meta.mutex m
    r ← load p
    v ← load q
    pure (status api (lib.call "pthread_cond_wait" (pos p ∷ pos q ∷ [])))

  unfoldable pub l_pthread_cond_timedwait : Value → Value → Value → Value → Cmd RcStore (List Value)
  l_pthread_cond_timedwait o m sec nsec = do
    p ← checkcookie 1 Meta.cond o
    q ← checkcookie 2 Meta.mutex m
    (a, b) ← timespec api 3 sec nsec
    r ← load p
    v ← load q
    pure (status api (lib.call "pthread_cond_timedwait" (pos p ∷ pos q ∷ a ∷ b ∷ [])))

  unfoldable pub l_pthread_rwlock_rdlock : Value → Cmd RcStore (List Value)
  l_pthread_rwlock_rdlock o = do
    p ← checkcookie 1 Meta.rwlock o
    r ← load p
    pure (status api (lib.call "pthread_rwlock_rdlock" (pos p ∷ [])))

  unfoldable pub l_pthread_rwlock_tryrdlock : Value → Cmd RcStore (List Value)
  l_pthread_rwlock_tryrdlock o = do
    p ← checkcookie 1 Meta.rwlock o
    r ← load p
    pure (status api (lib.call "pthread_rwlock_tryrdlock" (pos p ∷ [])))

  unfoldable pub l_pthread_rwlock_trywrlock : Value → Cmd RcStore (List Value)
  l_pthread_rwlock_trywrlock o = do
    p ← checkcookie 1 Meta.rwlock o
    r ← load p
    pure (status api (lib.call "pthread_rwlock_trywrlock" (pos p ∷ [])))

  unfoldable pub l_pthread_rwlock_unlock : Value → Cmd RcStore (List Value)
  l_pthread_rwlock_unlock o = do
    p ← checkcookie 1 Meta.rwlock o
    r ← load p
    pure (status api (lib.call "pthread_rwlock_unlock" (pos p ∷ [])))

  unfoldable pub l_pthread_rwlock_wrlock : Value → Cmd RcStore (List Value)
  l_pthread_rwlock_wrlock o = do
    p ← checkcookie 1 Meta.rwlock o
    r ← load p
    pure (status api (lib.call "pthread_rwlock_wrlock" (pos p ∷ [])))

  -- A pointer that was stored under the key.
  abbrev pointer : ℤ → ℕ
  pointer (pos n) = n
  pointer (negsuc n) = 0

  unfoldable pub l_pthread_key_getspecific : Value → Cmd RcStore (List Value)
  l_pthread_key_getspecific o = do
    p ← checkcookie 1 Meta.key o
    r ← load p
    pure (Value.light (pointer (lib.out "pthread_getspecific" (r.handle ∷ []))) ∷ [])

  unfoldable pub l_pthread_key_setspecific : Value → Value → Cmd RcStore (List Value)
  l_pthread_key_setspecific o value = do
    p ← checkcookie 1 Meta.key o
    q ← checklightuserdata 2 value
    r ← load p
    pure (status api (lib.call "pthread_setspecific" (r.handle ∷ pos q ∷ [])))

  -- The thread that serves last gets an integer.
  unfoldable pub l_pthread_barrier_wait : Value → Cmd RcStore (List Value)
  l_pthread_barrier_wait o = do
    p ← checkcookie 1 Meta.barrier o
    r ← load p
    let error = lib.call "pthread_barrier_wait" (pos p ∷ [])
    pure (
        if error == 0
        then success
        else (if error == lib.serial_thread
            then Value.integer (pos error) ∷ []
            else fail api error))

  -- The thread states and types of cancellation: the old one is returned.
  unfoldable pub l_pthread_setcancelstate : Value → Cmd RcStore (List Value)
  l_pthread_setcancelstate state = do
    n ← checkinteger api 1 state
    let error = lib.call "pthread_setcancelstate" (to_int n ∷ [])
    pure (
        if error == 0
        then Value.integer (lib.out "pthread_setcancelstate" (to_int n ∷ [])) ∷ []
        else fail api error)

  unfoldable pub l_pthread_setcanceltype : Value → Cmd RcStore (List Value)
  l_pthread_setcanceltype type = do
    n ← checkinteger api 1 type
    let error = lib.call "pthread_setcanceltype" (to_int n ∷ [])
    pure (
        if error == 0
        then Value.integer (lib.out "pthread_setcanceltype" (to_int n ∷ [])) ∷ []
        else fail api error)
