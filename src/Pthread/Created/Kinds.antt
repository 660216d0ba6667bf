-- ===== src/Pthread/Created/Kinds.antt =====
-- Each constructor of libpthread/lua_pthread.c: one new object with one reference, or no object.
use flualibs.Common.{
  ℕ, ◌≤◌, ◌+◌, ◌≡◌, ◌≢◌, if◌then◌else◌, Bool, some, none, update, String, List, [], ◌∷◌, ◌==◌,
  ==-ne, Bool-cases, inl, inr,
}
use flualibs.Common.Int.{ℤ, pos, to_word}
use flualibs.Lua.{Value, Fields, Meta}
use flualibs.Lua.Run.{Cmd, pure, Api, ◌>>=◌, ◌>>◌}
use flualibs.Utils.{fail, fatal}
use flualibs.Heap.{alloc, free}
use flualibs.Pthread.Defs.{RcStore, Lib}
use flualibs.Pthread.Create.{
  must, with_attr, allocate_object, fresh, publish, with_count, barrier_arguments, checkmutexattr,
  checkcondattr, checkrwlockattr, checkbarrierattr, l_pthread_mutex_new, l_pthread_cond_new,
  l_pthread_rwlock_new, l_pthread_barrier_new, l_pthread_once_new, l_pthread_self,
  l_pthread_key_create, l_pthread_rendezvous_new,
}
use flualibs.Heap.Cells.{Same}
use flualibs.Pthread.Created.{
  taken, wasted, Created, failed, rejected, Same-self, Same-freed, Same-wasted, ne_null, free-taken,
  alloc-taken, alloc-wasted, publish-Created, must-Created, allocate_object-Created,
  with_attr-Created,
}

-- The constructors, with their arguments from Lua, and the kind of object that they make.
pub data Constructor (api : Api) (lib : Lib) (oom : ℕ → Bool)
    : Meta → Cmd RcStore (List Value) → Type 0 where
  mutex : (v : Value) → Constructor api lib oom Meta.mutex (l_pthread_mutex_new api lib oom v)
  cond : (v : Value) → Constructor api lib oom Meta.cond (l_pthread_cond_new api lib oom v)
  rwlock : (v : Value) → Constructor api lib oom Meta.rwlock (l_pthread_rwlock_new api lib oom v)
  barrier :
      (v w : Value) → Constructor api lib oom Meta.barrier (l_pthread_barrier_new api lib oom v w)
  once : Constructor api lib oom Meta.once (l_pthread_once_new api lib oom)
  self : Constructor api lib oom Meta.pthread (l_pthread_self api lib oom)
  key : (v : Value) → Constructor api lib oom Meta.key (l_pthread_key_create api lib oom v)
  rendezvous : Constructor api lib oom Meta.rendezvous (l_pthread_rendezvous_new api lib oom)

module _ (s : RcStore) (fresh_next : 1 ≤ s.next) (empty : (q : ℕ) → s.next ≤ q → s.cell q ≡ none)
    (api : Api) (lib : Lib) (oom : ℕ → Bool) where
  with_count-Created : (v : Value) → Created s Meta.barrier (with_count api lib oom v s)
  with_count-Created (Value.integer n) =
      allocate_object-Created s Meta.barrier fresh_next empty api lib oom
        "pthread_barrierattr_destroy" "pthread_barrier_init" (pos (to_word 32 n) ∷ [])
  with_count-Created v =
      must-Created s Meta.barrier fresh_next empty api lib oom "pthread_barrierattr_destroy" s _
        (Same-self s Meta.barrier fresh_next empty)
        (rejected _ _ (Same-self s Meta.barrier fresh_next empty))

  barrier_arguments-Created :
      (v w : Value) → Created s Meta.barrier (barrier_arguments api lib oom v w s)
  barrier_arguments-Created (Value.table vs fs) w = elim (Bool-cases (checkbarrierattr lib fs)) [
    | inl ok ↦ rw ok (with_count-Created w)
    | inr bad ↦ rw bad (
        must-Created s Meta.barrier fresh_next empty api lib oom "pthread_barrierattr_destroy" s _
          (Same-self s Meta.barrier fresh_next empty)
          (rejected _ _ (Same-self s Meta.barrier fresh_next empty)))
  ]
  barrier_arguments-Created v w = with_count-Created v

  -- The allocation of a constructor without attributes.
  allocated :
      (m : Meta) (next : ℕ → Cmd RcStore (List Value))
      → Created s m (next 0 (record s { next = s.next + 1 }))
      → Created s m (
          next s.next
            (record s { cell = update s.cell s.next (some (fresh (pos 0))); next = s.next + 1 }))
      → Created s m ((alloc oom (fresh (pos 0)) >>= next) s)
  allocated m next null room = elim (Bool-cases (oom s.next)) [
    | inl full ↦ rw (alloc-wasted s m fresh_next empty oom (fresh (pos 0)) full) null
    | inr got ↦ rw (alloc-taken s m fresh_next empty oom (fresh (pos 0)) got) room
  ]

  null : s.next ≢ 0
  null = ne_null s Meta.once fresh_next empty

  unchanged : (m : Meta) → Same s s
  unchanged m = Same-self s m fresh_next empty

  -- An object that is counted and given to a userdata, one that is freed before an answer to Lua, and
  -- one that is freed before an error.
  published :
      (m : Meta) (h : ℤ) → Created s m (publish api lib oom m s.next h (taken s (fresh (pos 0))))
  published m h = publish-Created s m fresh_next empty api lib oom (fresh (pos 0)) h

  given_back :
      (m : Meta) (vs : List Value)
      → Created s m ((free s.next >> pure vs) (taken s (fresh (pos 0))))
  given_back m vs =
      rw (free-taken s m fresh_next empty (fresh (pos 0)))
        (failed _ _ (Same-freed s m fresh_next empty (fresh (pos 0))))

  given_up :
      (m : Meta) (name : String) (error : ℕ)
      → Created s m ((free s.next >> fatal name error) (taken s (fresh (pos 0))))
  given_up m name error =
      rw (free-taken s m fresh_next empty (fresh (pos 0)))
        (rejected _ _ (Same-freed s m fresh_next empty (fresh (pos 0))))

  out_of_memory : (m : Meta) → Created s m (fatal "malloc" lib.enomem (wasted s))
  out_of_memory m = rejected _ _ (Same-wasted s m fresh_next empty)

  key-Created :
      (v : Value) (error : ℕ) (h : ℤ)
      → Created s Meta.key (
          (if error == 0
              then publish api lib oom Meta.key s.next h
              else (free s.next >> pure (fail api error)))
            (taken s (fresh (pos 0))))
  key-Created v error h = elim (Bool-cases (error == 0)) [
    | inl ok ↦ rw ok (published Meta.key h)
    | inr bad ↦ rw bad (given_back Meta.key _)
  ]

  rendezvous-Created :
      (error error1 : ℕ)
      → Created s Meta.rendezvous (
          (if error == 0
              then (if error1 == 0
                  then publish api lib oom Meta.rendezvous s.next (pos 0)
                  else free s.next >> fatal "pthread_cond_init" error1)
              else free s.next >> fatal "pthread_mutex_init" error)
            (taken s (fresh (pos 0))))
  rendezvous-Created error error1 = elim (Bool-cases (error == 0)) [
    | inl ok ↦ rw ok (elim (Bool-cases (error1 == 0)) [
      | inl fine ↦ rw fine (published Meta.rendezvous (pos 0))
      | inr bad ↦ rw bad (given_up Meta.rendezvous _ _)
    ])
    | inr bad ↦ rw bad (given_up Meta.rendezvous _ _)
  ]

  -- The constructors that take a table of attributes.
  attributed :
      (m : Meta) (attr_init attr_destroy init : String) (check : Fields → Bool) (v : Value)
      → Created s m (
          (must lib attr_init
              >> with_attr api lib oom check attr_destroy v
                  (allocate_object api lib oom m attr_destroy init []))
            s)
  attributed m attr_init attr_destroy init check v =
      must-Created s m fresh_next empty api lib oom attr_init s _ (unchanged m) (
        with_attr-Created s m fresh_next empty api lib oom check attr_destroy v _
          (allocate_object-Created s m fresh_next empty api lib oom attr_destroy init []))

  -- Where fresh addresses are unused, every constructor makes one object with one reference, which a new
  -- userdata holds, or fails and leaves no object, userdata or memory behind, whatever the library
  -- and the allocator answer.
  pub Constructor-Created :
      (m : Meta) {make : Cmd RcStore (List Value)}
      → Constructor api lib oom m make
      → Created s m (make s)
  unfolding l_pthread_mutex_new l_pthread_cond_new l_pthread_rwlock_new l_pthread_barrier_new
      l_pthread_once_new l_pthread_self l_pthread_key_create l_pthread_rendezvous_new
  Constructor-Created m (mutex v) =
      attributed m "pthread_mutexattr_init" "pthread_mutexattr_destroy" "pthread_mutex_init"
        (checkmutexattr lib) v
  Constructor-Created m (cond v) =
      attributed m "pthread_condattr_init" "pthread_condattr_destroy" "pthread_cond_init"
        (checkcondattr lib) v
  Constructor-Created m (rwlock v) =
      attributed m "pthread_rwlockattr_init" "pthread_rwlockattr_destroy" "pthread_rwlock_init"
        (checkrwlockattr lib) v
  Constructor-Created m (barrier v w) =
      must-Created s m fresh_next empty api lib oom "pthread_barrierattr_init" s _ (unchanged m)
        (barrier_arguments-Created v w)
  Constructor-Created m once =
      allocated m _ (out_of_memory m) (rw (==-ne s.next 0 null) (published m (pos 0)))
  Constructor-Created m self =
      allocated m _ (out_of_memory m)
        (rw (==-ne s.next 0 null) (published m (lib.out "pthread_self" [])))
  Constructor-Created m (key v) =
      allocated m _ (out_of_memory m) (rw (==-ne s.next 0 null) (key-Created v _ _))
  Constructor-Created m rendezvous = allocated m _ (out_of_memory m) (
      rw (==-ne s.next 0 null) (
        rendezvous-Created (lib.call "pthread_mutex_init" (pos s.next ∷ []))
          (lib.call "pthread_cond_init" (pos s.next ∷ []))))
