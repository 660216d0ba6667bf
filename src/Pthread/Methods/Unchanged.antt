-- ===== src/Pthread/Methods/Unchanged.antt =====
-- The methods of libpthread/lua_pthread.c that call the library on an object.
use flualibs.Common.{List}
use flualibs.Lua.{Value, Meta}
use flualibs.Lua.Run.{Cmd, Api, checkinteger}
use flualibs.Utils.{checklightuserdata, checkcookie}
use flualibs.Heap.{load}
use flualibs.Pthread.Defs.{RcStore, Lib}
use flualibs.Pthread.Methods.{
  timespec, l_pthread_cancel, l_pthread_detach, l_pthread_resume_np, l_pthread_suspend_np,
  l_pthread_kill, l_pthread_equal, l_pthread_mutex_lock, l_pthread_mutex_trylock,
  l_pthread_mutex_unlock, l_pthread_mutex_timedlock, l_pthread_mutex_getspinloops_np,
  l_pthread_mutex_setspinloops_np, l_pthread_mutex_getyieldloops_np,
  l_pthread_mutex_setyieldloops_np, l_pthread_mutex_isowned_np, l_pthread_cond_broadcast,
  l_pthread_cond_signal, l_pthread_cond_wait, l_pthread_cond_timedwait, l_pthread_rwlock_rdlock,
  l_pthread_rwlock_tryrdlock, l_pthread_rwlock_trywrlock, l_pthread_rwlock_unlock,
  l_pthread_rwlock_wrlock, l_pthread_key_getspecific, l_pthread_key_setspecific,
  l_pthread_barrier_wait, l_pthread_setcancelstate, l_pthread_setcanceltype,
}
use flualibs.Pthread.Ownership.{Counted}
use flualibs.Pthread.Methods.Quiet.{
  Answers, answered, Any, bind-Answers, checkinteger-Answers, timespec-Answers,
  checklightuserdata-Answers, load-Answers, checkcookie-Answers, object-Answers,
}

-- The call of a method from Lua, with any arguments.
pub data Method (api : Api) (lib : Lib) : Cmd RcStore (List Value) → Type 0 where
  cancel : (v : Value) → Method api lib (l_pthread_cancel api lib v)
  detach : (v : Value) → Method api lib (l_pthread_detach api lib v)
  resume_np : (v : Value) → Method api lib (l_pthread_resume_np api lib v)
  suspend_np : (v : Value) → Method api lib (l_pthread_suspend_np api lib v)
  kill : (v w : Value) → Method api lib (l_pthread_kill api lib v w)
  equal : (v w : Value) → Method api lib (l_pthread_equal api lib v w)
  mutex_lock : (v : Value) → Method api lib (l_pthread_mutex_lock api lib v)
  mutex_trylock : (v : Value) → Method api lib (l_pthread_mutex_trylock api lib v)
  mutex_unlock : (v : Value) → Method api lib (l_pthread_mutex_unlock api lib v)
  mutex_timedlock : (v w x : Value) → Method api lib (l_pthread_mutex_timedlock api lib v w x)
  mutex_getspinloops_np : (v : Value) → Method api lib (l_pthread_mutex_getspinloops_np api lib v)
  mutex_setspinloops_np :
      (v w : Value) → Method api lib (l_pthread_mutex_setspinloops_np api lib v w)
  mutex_getyieldloops_np : (v : Value) → Method api lib (l_pthread_mutex_getyieldloops_np api lib v)
  mutex_setyieldloops_np :
      (v w : Value) → Method api lib (l_pthread_mutex_setyieldloops_np api lib v w)
  mutex_isowned_np : (v : Value) → Method api lib (l_pthread_mutex_isowned_np api lib v)
  cond_broadcast : (v : Value) → Method api lib (l_pthread_cond_broadcast api lib v)
  cond_signal : (v : Value) → Method api lib (l_pthread_cond_signal api lib v)
  cond_wait : (v w : Value) → Method api lib (l_pthread_cond_wait api lib v w)
  cond_timedwait : (v w x y : Value) → Method api lib (l_pthread_cond_timedwait api lib v w x y)
  rwlock_rdlock : (v : Value) → Method api lib (l_pthread_rwlock_rdlock api lib v)
  rwlock_tryrdlock : (v : Value) → Method api lib (l_pthread_rwlock_tryrdlock api lib v)
  rwlock_trywrlock : (v : Value) → Method api lib (l_pthread_rwlock_trywrlock api lib v)
  rwlock_unlock : (v : Value) → Method api lib (l_pthread_rwlock_unlock api lib v)
  rwlock_wrlock : (v : Value) → Method api lib (l_pthread_rwlock_wrlock api lib v)
  key_getspecific : (v : Value) → Method api lib (l_pthread_key_getspecific api lib v)
  key_setspecific : (v w : Value) → Method api lib (l_pthread_key_setspecific api lib v w)
  barrier_wait : (v : Value) → Method api lib (l_pthread_barrier_wait api lib v)
  setcancelstate : (v : Value) → Method api lib (l_pthread_setcancelstate api lib v)
  setcanceltype : (v : Value) → Method api lib (l_pthread_setcanceltype api lib v)

module _ (api : Api) (lib : Lib) {s : RcStore} where
  -- Where the counts are right, and where the call of the library returns: each of these methods, whatever
  -- its arguments, has an answer, of which nothing is said, or an error, and no access to freed
  -- memory, and leaves the objects and the userdata as they are.
  pub Method-Answers :
      {call : Cmd RcStore (List Value)} → Counted s → Method api lib call → Answers s Any (call s)
  unfolding l_pthread_cancel l_pthread_detach l_pthread_resume_np l_pthread_suspend_np
      l_pthread_kill l_pthread_equal l_pthread_mutex_lock l_pthread_mutex_trylock
      l_pthread_mutex_unlock l_pthread_mutex_timedlock l_pthread_mutex_getspinloops_np
      l_pthread_mutex_setspinloops_np l_pthread_mutex_getyieldloops_np
      l_pthread_mutex_setyieldloops_np l_pthread_mutex_isowned_np l_pthread_cond_broadcast
      l_pthread_cond_signal l_pthread_cond_wait l_pthread_cond_timedwait l_pthread_rwlock_rdlock
      l_pthread_rwlock_tryrdlock l_pthread_rwlock_trywrlock l_pthread_rwlock_unlock
      l_pthread_rwlock_wrlock l_pthread_key_getspecific l_pthread_key_setspecific
      l_pthread_barrier_wait l_pthread_setcancelstate l_pthread_setcanceltype
  Method-Answers h (cancel t) = object-Answers api lib h Meta.pthread t _
  Method-Answers h (detach t) = object-Answers api lib h Meta.pthread t _
  Method-Answers h (resume_np t) = object-Answers api lib h Meta.pthread t _
  Method-Answers h (suspend_np t) = object-Answers api lib h Meta.pthread t _
  Method-Answers h (kill t sig) =
      bind-Answers (checkcookie 1 Meta.pthread t) _ (checkcookie-Answers api lib h 1 Meta.pthread t)
        λ p held_p.
          bind-Answers (checkinteger api 2 sig) _ (checkinteger-Answers api lib 2 sig)
            λ n any_n. bind-Answers (load p) _ (load-Answers api lib held_p) λ r any_r. answered tt
  Method-Answers h (equal t1 t2) =
      bind-Answers (checkcookie 1 Meta.pthread t1) _
        (checkcookie-Answers api lib h 1 Meta.pthread t1)
        λ p held_p.
          bind-Answers (checkcookie 2 Meta.pthread t2) _
            (checkcookie-Answers api lib h 2 Meta.pthread t2)
            λ q held_q. bind-Answers (load p) _ (load-Answers api lib held_p) λ r any_r.
              bind-Answers (load q) _ (load-Answers api lib held_q) λ v any_v. answered tt
  Method-Answers h (mutex_lock o) = object-Answers api lib h Meta.mutex o _
  Method-Answers h (mutex_trylock o) = object-Answers api lib h Meta.mutex o _
  Method-Answers h (mutex_unlock o) = object-Answers api lib h Meta.mutex o _
  Method-Answers h (mutex_timedlock o sec nsec) =
      bind-Answers (checkcookie 1 Meta.mutex o) _ (checkcookie-Answers api lib h 1 Meta.mutex o)
        λ p held_p.
          bind-Answers (timespec api 2 sec nsec) _ (timespec-Answers api lib 2 sec nsec)
            λ t any_t. bind-Answers (load p) _ (load-Answers api lib held_p) λ r any_r. answered tt
  Method-Answers h (mutex_getspinloops_np o) = object-Answers api lib h Meta.mutex o _
  Method-Answers h (mutex_setspinloops_np o count) =
      bind-Answers (checkcookie 1 Meta.mutex o) _ (checkcookie-Answers api lib h 1 Meta.mutex o)
        λ p held_p.
          bind-Answers (checkinteger api 2 count) _ (checkinteger-Answers api lib 2 count)
            λ n any_n. bind-Answers (load p) _ (load-Answers api lib held_p) λ r any_r. answered tt
  Method-Answers h (mutex_getyieldloops_np o) = object-Answers api lib h Meta.mutex o _
  Method-Answers h (mutex_setyieldloops_np o count) =
      bind-Answers (checkcookie 1 Meta.mutex o) _ (checkcookie-Answers api lib h 1 Meta.mutex o)
        λ p held_p.
          bind-Answers (checkinteger api 2 count) _ (checkinteger-Answers api lib 2 count)
            λ n any_n. bind-Answers (load p) _ (load-Answers api lib held_p) λ r any_r. answered tt
  Method-Answers h (mutex_isowned_np o) = object-Answers api lib h Meta.mutex o _
  Method-Answers h (cond_broadcast o) = object-Answers api lib h Meta.cond o _
  Method-Answers h (cond_signal o) = object-Answers api lib h Meta.cond o _
  Method-Answers h (cond_wait o m) =
      bind-Answers (checkcookie 1 Meta.cond o) _ (checkcookie-Answers api lib h 1 Meta.cond o)
        λ p held_p.
          bind-Answers (checkcookie 2 Meta.mutex m) _ (checkcookie-Answers api lib h 2 Meta.mutex m)
            λ q held_q. bind-Answers (load p) _ (load-Answers api lib held_p) λ r any_r.
              bind-Answers (load q) _ (load-Answers api lib held_q) λ v any_v. answered tt
  Method-Answers h (cond_timedwait o m sec nsec) =
      bind-Answers (checkcookie 1 Meta.cond o) _ (checkcookie-Answers api lib h 1 Meta.cond o)
        λ p held_p.
          bind-Answers (checkcookie 2 Meta.mutex m) _ (checkcookie-Answers api lib h 2 Meta.mutex m)
            λ q held_q.
              bind-Answers (timespec api 3 sec nsec) _ (timespec-Answers api lib 3 sec nsec)
                λ t any_t. bind-Answers (load p) _ (load-Answers api lib held_p) λ r any_r.
                  bind-Answers (load q) _ (load-Answers api lib held_q) λ v any_v. answered tt
  Method-Answers h (rwlock_rdlock o) = object-Answers api lib h Meta.rwlock o _
  Method-Answers h (rwlock_tryrdlock o) = object-Answers api lib h Meta.rwlock o _
  Method-Answers h (rwlock_trywrlock o) = object-Answers api lib h Meta.rwlock o _
  Method-Answers h (rwlock_unlock o) = object-Answers api lib h Meta.rwlock o _
  Method-Answers h (rwlock_wrlock o) = object-Answers api lib h Meta.rwlock o _
  Method-Answers h (key_getspecific o) = object-Answers api lib h Meta.key o _
  Method-Answers h (key_setspecific o value) =
      bind-Answers (checkcookie 1 Meta.key o) _ (checkcookie-Answers api lib h 1 Meta.key o)
        λ p held_p.
          bind-Answers (checklightuserdata 2 value) _ (checklightuserdata-Answers api lib 2 value)
            λ q any_q. bind-Answers (load p) _ (load-Answers api lib held_p) λ r any_r. answered tt
  Method-Answers h (barrier_wait o) = object-Answers api lib h Meta.barrier o _
  Method-Answers h (setcancelstate state) =
      bind-Answers (checkinteger api 1 state) _ (checkinteger-Answers api lib 1 state)
        λ n any_n. answered tt
  Method-Answers h (setcanceltype type) =
      bind-Answers (checkinteger api 1 type) _ (checkinteger-Answers api lib 1 type)
        λ n any_n. answered tt
