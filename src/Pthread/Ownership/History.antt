-- ===== src/Pthread/Ownership/History.antt =====
-- Every history of constructors, methods, `retain` functions and finalisers of libpthread/lua_pthread.c.
use flualibs.Common.{
  ℕ, ◌+◌, ◌^◌, ◌≤◌, ◌<◌, ◌≡◌, refl, Bool, none, String, List, [], ◌∷◌, ◌∙◌, ap, length, ◌==◌, inl,
  inr, Bool-cases,
}
use flualibs.Lua.{Value, Meta}
use flualibs.Lua.Run.{Run, Cmd, LuaError, done, raised, Api}
use flualibs.Utils.Cookies.{HasCookie}
use flualibs.Pthread.Defs.{Rc, RcStore, Lib}
use flualibs.Pthread.Handles.{
  retain, gc, report, no_destructor, destructor, delete_key, destroy_rendezvous, l_pthread_retain,
  l_pthread_once_retain, l_pthread_mutex_retain, l_pthread_cond_retain, l_pthread_rwlock_retain,
  l_pthread_key_retain, l_pthread_barrier_retain, l_pthread_rendezvous_retain, l_pthread_gc,
  l_pthread_once_gc, l_pthread_mutex_gc, l_pthread_cond_gc, l_pthread_rwlock_gc, l_pthread_key_gc,
  l_pthread_barrier_gc, l_pthread_rendezvous_gc,
}
use flualibs.Pthread.Created.{Created, made, failed, rejected}
use flualibs.Pthread.Created.Kinds.{Constructor, Constructor-Created}
use flualibs.Pthread.Ownership.{holders, Counted, Same-Counted, Made-Counted}
use flualibs.Pthread.Methods.Quiet.{Answers, answered}
use flualibs.Pthread.Methods.Unchanged.{Method, Method-Answers}
use flualibs.Pthread.Ownership.Collecting.{bury, less, answer, held_by, gc-done}

pub data Retainer : Meta → (Value → Cmd RcStore (List Value)) → Type 0 where
  pthread : Retainer Meta.pthread l_pthread_retain
  once : Retainer Meta.once l_pthread_once_retain
  mutex : Retainer Meta.mutex l_pthread_mutex_retain
  cond : Retainer Meta.cond l_pthread_cond_retain
  rwlock : Retainer Meta.rwlock l_pthread_rwlock_retain
  key : Retainer Meta.key l_pthread_key_retain
  barrier : Retainer Meta.barrier l_pthread_barrier_retain
  rendezvous : Retainer Meta.rendezvous l_pthread_rendezvous_retain

pub data Finaliser (lib : Lib) : Meta → (Value → Cmd RcStore (List Value)) → Type 0 where
  pthread : Finaliser lib Meta.pthread l_pthread_gc
  once : Finaliser lib Meta.once l_pthread_once_gc
  mutex : Finaliser lib Meta.mutex (l_pthread_mutex_gc lib)
  cond : Finaliser lib Meta.cond (l_pthread_cond_gc lib)
  rwlock : Finaliser lib Meta.rwlock (l_pthread_rwlock_gc lib)
  key : Finaliser lib Meta.key (l_pthread_key_gc lib)
  barrier : Finaliser lib Meta.barrier (l_pthread_barrier_gc lib)
  rendezvous : Finaliser lib Meta.rendezvous (l_pthread_rendezvous_gc lib)

pub Retainer-retain :
    {m : Meta} {f : Value → Cmd RcStore (List Value)}
    → Retainer m f
    → (v : Value) → f v ≡ retain m v
unfolding l_pthread_retain l_pthread_once_retain l_pthread_mutex_retain l_pthread_cond_retain
    l_pthread_rwlock_retain l_pthread_key_retain l_pthread_barrier_retain
    l_pthread_rendezvous_retain
Retainer-retain pthread v = refl
Retainer-retain once v = refl
Retainer-retain mutex v = refl
Retainer-retain cond v = refl
Retainer-retain rwlock v = refl
Retainer-retain key v = refl
Retainer-retain barrier v = refl
Retainer-retain rendezvous v = refl

-- The destructors that a finaliser calls for the last reference.
abbrev pub destroys :
    {lib : Lib} {m : Meta} {f : Value → Cmd RcStore (List Value)}
    → Finaliser lib m f
    → ℕ
    → Rc
    → List (String × ℕ)
destroys pthread = no_destructor
destroys once = no_destructor
destroys {lib} mutex = destructor lib "pthread_mutex_destroy"
destroys {lib} cond = destructor lib "pthread_cond_destroy"
destroys {lib} rwlock = destructor lib "pthread_rwlock_destroy"
destroys {lib} key = delete_key lib
destroys {lib} barrier = destructor lib "pthread_barrier_destroy"
destroys {lib} rendezvous = destroy_rendezvous lib

Finaliser-gc :
    {lib : Lib} {m : Meta} {f : Value → Cmd RcStore (List Value)} (final : Finaliser lib m f)
    (v : Value)
    → f v ≡ gc m (destroys final) v
unfolding l_pthread_gc l_pthread_once_gc l_pthread_mutex_gc l_pthread_cond_gc l_pthread_rwlock_gc
    l_pthread_key_gc l_pthread_barrier_gc l_pthread_rendezvous_gc
Finaliser-gc pthread v = refl
Finaliser-gc once v = refl
Finaliser-gc mutex v = refl
Finaliser-gc cond v = refl
Finaliser-gc rwlock v = refl
Finaliser-gc key v = refl
Finaliser-gc barrier v = refl
Finaliser-gc rendezvous v = refl

module _ (api : Api) (lib : Lib) (oom : ℕ → Bool) where
  -- One step of the program: a constructor, a method, a `retain` of an object that some userdata holds, or the
  -- collection of a userdata, whose finaliser runs first. Lua goes on after an error.
  pub data Step (s : RcStore) : RcStore → Type 0 where
    constructed :
        {m : Meta} {make : Cmd RcStore (List Value)} {vs : List Value} {t : RcStore}
        → Constructor api lib oom m make
        → make s ≡ done vs t
        → Step s t
    refused :
        {m : Meta} {make : Cmd RcStore (List Value)} {e : LuaError} {t : RcStore}
        → Constructor api lib oom m make
        → make s ≡ raised e t
        → Step s t
    called :
        {call : Cmd RcStore (List Value)} {vs : List Value} {t : RcStore}
        → Method api lib call
        → call s ≡ done vs t
        → Step s t
    called_failing :
        {call : Cmd RcStore (List Value)} {e : LuaError} {t : RcStore}
        → Method api lib call
        → call s ≡ raised e t
        → Step s t
    shared :
        {m : Meta} {f : Value → Cmd RcStore (List Value)} {p : ℕ} {vs : List Value} {t : RcStore}
        → Retainer m f
        → 1 ≤ holders p s.uds
        → length s.uds + 1 < 2 ^ 64
        → f (Value.light p) s ≡ done vs t
        → Step s t
    collected :
        {m : Meta} {f : Value → Cmd RcStore (List Value)} {u p : ℕ} {vs : List Value} {t : RcStore}
        → Finaliser lib m f
        → (c : HasCookie s u m p) → f (Value.userdata u) s ≡ done vs t
        → Step s (bury u c.data_of t)
    collected_failing :
        {m : Meta} {f : Value → Cmd RcStore (List Value)} {u p : ℕ} {e : LuaError} {t : RcStore}
        → Finaliser lib m f
        → (c : HasCookie s u m p) → f (Value.userdata u) s ≡ raised e t
        → Step s (bury u c.data_of t)

  -- The states of a program that never has 2 ^ 64 userdata.
  pub data Reach : RcStore → Type 0 where
    start : Reach (record { cell = λ q. none; next = 1; uds = [] })
    step : {s t : RcStore} → Reach s → Step s t → length t.uds < 2 ^ 64 → Reach t

-- What is known of a state after an outcome.
abbrev pub After : {S A : Type 0} → (S → Type 0) → Run S A → Type 0
After P (done a t) = P t
After P (raised e t) = P t
After P r = ⊥

module _ {s : RcStore} (h : Counted s) where
  Created-Counted :
      {m : Meta} {r : Run RcStore (List Value)}
      → Created s m r
      → After (λ t. length t.uds < 2 ^ 64 → Counted t) r
  Created-Counted (made t p new) = λ few. Made-Counted new h few
  Created-Counted (failed vs t same) = λ few. Same-Counted same h
  Created-Counted (rejected e t same) = λ few. Same-Counted same h

  pub Constructor-Counted :
      {api : Api} {lib : Lib} {oom : ℕ → Bool} {m : Meta} {make : Cmd RcStore (List Value)}
      → Constructor api lib oom m make
      → After (λ t. length t.uds < 2 ^ 64 → Counted t) (make s)
  Constructor-Counted {api} {lib} {oom} {m} k =
      Created-Counted (Constructor-Created s h.start h.empty api lib oom m k)

  Answers-Counted :
      {A : Type 0} {P : A → Type 0} (r : Run RcStore A) → Answers s P r → After Counted r
  Answers-Counted r (answered p) = h
  Answers-Counted r (Answers.refused e) = h

  pub Method-Counted :
      {api : Api} {lib : Lib} {call : Cmd RcStore (List Value)}
      → Method api lib call
      → After Counted (call s)
  Method-Counted {api} {lib} {call} k = Answers-Counted (call s) (Method-Answers api lib h k)

  -- A finaliser ends, with an error or without, in the state with one reference less.
  report-After :
      (P : RcStore → Type 0) (errors : List (String × ℕ)) (t : RcStore)
      → P t
      → After P (report errors t)
  report-After P [] t x = x
  report-After P ((name, error) ∷ errors) t x = elim (Bool-cases (error == 0)) [
    | inl ok ↦ rw ok (report-After P errors t x)
    | inr bad ↦ rw bad x
  ]

  pub answer-After :
      (P : RcStore → Type 0) (errors : List (String × ℕ)) (r : Rc) (t : RcStore)
      → P t
      → After P (answer errors r t)
  answer-After P errors r t x = elim (Bool-cases (r.refs == 1)) [
    | inl last ↦ rw last (report-After P errors t x)
    | inr more ↦ rw more x
  ]

  pub Finaliser-done :
      {lib : Lib} {m : Meta} {f : Value → Cmd RcStore (List Value)} {u p : ℕ}
      (final : Finaliser lib m f) (c : HasCookie s u m p)
      → f (Value.userdata u) s
        ≡ answer
            (destroys final p (held_by h c).object)
            (held_by h c).object
            (less p (held_by h c).object s)
  Finaliser-done {u = u} final c =
      ap (λ g. g s) (Finaliser-gc final (Value.userdata u)) ∙ gc-done h c (destroys final)
