-- ===== src/Pthread/Handles.antt =====
-- The functions `retain`, `cookie` and `__gc` of each kind of object in libpthread/lua_pthread.c.
use flualibs.Common.{ℕ, Bool, String, List, [], ◌∷◌, ◌==◌, if◌then◌else◌}
use flualibs.Common.Int.{pos}
use flualibs.Lua.{Value, Meta}
use flualibs.Lua.Run.{Cmd, pure, ◌>>=◌, ◌>>◌}
use flualibs.Utils.{fatal, new, checklightuserdata, checkcookieuv, checkcookie}
use flualibs.Heap.{load, store, free}
use flualibs.Refcount.{refcount_retain, refcount_release}
use flualibs.Pthread.Defs.{Rc, RcStore, Lib}

-- `retain` does not ask what kind of object the pointer is.
unfoldable pub retain : Meta → Value → Cmd RcStore (List Value)
retain m cookie = do
  p ← checklightuserdata 1 cookie
  r ← load p
  store p (record r { refs = refcount_retain r.refs })
  u ← new p m
  pure (u ∷ [])

unfoldable pub cookie_of : Meta → Value → Cmd RcStore (List Value)
cookie_of m v = do cookie ← checkcookieuv 1 m v; pure (Value.light cookie ∷ [])

-- The first error of the destructors is raised, after the memory was freed.
abbrev pub report : List (String × ℕ) → Cmd RcStore (List Value)
report [] = pure []
report ((name, error) ∷ errors) = if error == 0 then report errors else fatal name error

abbrev pub release : ℕ → Rc → List (String × ℕ) → ℕ × Bool → Cmd RcStore (List Value)
release p r errors (refs, last) = do
  store p (record r { refs = refs })
  if last then free p >> report errors else pure []

-- A finaliser with the results of the destructors that it calls for the last reference.
unfoldable pub gc : Meta → (ℕ → Rc → List (String × ℕ)) → Value → Cmd RcStore (List Value)
gc m destroy v = do
  p ← checkcookie 1 m v
  r ← load p
  release p r (destroy p r) (refcount_release r.refs)

abbrev pub no_destructor : ℕ → Rc → List (String × ℕ)
no_destructor p r = []

abbrev pub destructor : Lib → String → ℕ → Rc → List (String × ℕ)
destructor lib name p r = (name, lib.call name (pos p ∷ [])) ∷ []

unfoldable pub l_pthread_retain : Value → Cmd RcStore (List Value)
unfolding retain
l_pthread_retain = retain Meta.pthread

unfoldable pub l_pthread_cookie : Value → Cmd RcStore (List Value)
unfolding cookie_of
l_pthread_cookie = cookie_of Meta.pthread

unfoldable pub l_pthread_gc : Value → Cmd RcStore (List Value)
unfolding gc
l_pthread_gc = gc Meta.pthread no_destructor

unfoldable pub l_pthread_once_retain : Value → Cmd RcStore (List Value)
unfolding retain
l_pthread_once_retain = retain Meta.once

unfoldable pub l_pthread_once_cookie : Value → Cmd RcStore (List Value)
unfolding cookie_of
l_pthread_once_cookie = cookie_of Meta.once

unfoldable pub l_pthread_once_gc : Value → Cmd RcStore (List Value)
unfolding gc
l_pthread_once_gc = gc Meta.once no_destructor

unfoldable pub l_pthread_mutex_retain : Value → Cmd RcStore (List Value)
unfolding retain
l_pthread_mutex_retain = retain Meta.mutex

unfoldable pub l_pthread_mutex_cookie : Value → Cmd RcStore (List Value)
unfolding cookie_of
l_pthread_mutex_cookie = cookie_of Meta.mutex

unfoldable pub l_pthread_mutex_gc : Lib → Value → Cmd RcStore (List Value)
unfolding gc
l_pthread_mutex_gc lib = gc Meta.mutex (destructor lib "pthread_mutex_destroy")

unfoldable pub l_pthread_cond_retain : Value → Cmd RcStore (List Value)
unfolding retain
l_pthread_cond_retain = retain Meta.cond

unfoldable pub l_pthread_cond_cookie : Value → Cmd RcStore (List Value)
unfolding cookie_of
l_pthread_cond_cookie = cookie_of Meta.cond

unfoldable pub l_pthread_cond_gc : Lib → Value → Cmd RcStore (List Value)
unfolding gc
l_pthread_cond_gc lib = gc Meta.cond (destructor lib "pthread_cond_destroy")

unfoldable pub l_pthread_rwlock_retain : Value → Cmd RcStore (List Value)
unfolding retain
l_pthread_rwlock_retain = retain Meta.rwlock

unfoldable pub l_pthread_rwlock_cookie : Value → Cmd RcStore (List Value)
unfolding cookie_of
l_pthread_rwlock_cookie = cookie_of Meta.rwlock

unfoldable pub l_pthread_rwlock_gc : Lib → Value → Cmd RcStore (List Value)
unfolding gc
l_pthread_rwlock_gc lib = gc Meta.rwlock (destructor lib "pthread_rwlock_destroy")

unfoldable pub l_pthread_key_retain : Value → Cmd RcStore (List Value)
unfolding retain
l_pthread_key_retain = retain Meta.key

unfoldable pub l_pthread_key_cookie : Value → Cmd RcStore (List Value)
unfolding cookie_of
l_pthread_key_cookie = cookie_of Meta.key

-- The key is deleted by its value, not by an address.
abbrev pub delete_key : Lib → ℕ → Rc → List (String × ℕ)
delete_key lib p r = ("pthread_key_delete", lib.call "pthread_key_delete" (r.handle ∷ [])) ∷ []

unfoldable pub l_pthread_key_gc : Lib → Value → Cmd RcStore (List Value)
unfolding gc
l_pthread_key_gc lib = gc Meta.key (delete_key lib)

unfoldable pub l_pthread_barrier_retain : Value → Cmd RcStore (List Value)
unfolding retain
l_pthread_barrier_retain = retain Meta.barrier

unfoldable pub l_pthread_barrier_cookie : Value → Cmd RcStore (List Value)
unfolding cookie_of
l_pthread_barrier_cookie = cookie_of Meta.barrier

unfoldable pub l_pthread_barrier_gc : Lib → Value → Cmd RcStore (List Value)
unfolding gc
l_pthread_barrier_gc lib = gc Meta.barrier (destructor lib "pthread_barrier_destroy")

unfoldable pub l_pthread_rendezvous_retain : Value → Cmd RcStore (List Value)
unfolding retain
l_pthread_rendezvous_retain = retain Meta.rendezvous

unfoldable pub l_pthread_rendezvous_cookie : Value → Cmd RcStore (List Value)
unfolding cookie_of
l_pthread_rendezvous_cookie = cookie_of Meta.rendezvous

-- Both destructors are called before the memory is freed; the error of the first comes first.
abbrev pub destroy_rendezvous : Lib → ℕ → Rc → List (String × ℕ)
destroy_rendezvous lib p r =
    ("pthread_cond_destroy", lib.call "pthread_cond_destroy" (pos p ∷ []))
    ∷ ("pthread_mutex_destroy", lib.call "pthread_mutex_destroy" (pos p ∷ []))
    ∷ []

unfoldable pub l_pthread_rendezvous_gc : Lib → Value → Cmd RcStore (List Value)
unfolding gc
l_pthread_rendezvous_gc lib = gc Meta.rendezvous (destroy_rendezvous lib)
