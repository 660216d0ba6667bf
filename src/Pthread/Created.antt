-- ===== src/Pthread/Created.antt =====
-- What the constructors of libpthread/lua_pthread.c leave behind, whatever the library answers.
pub mod Kinds
use flualibs.Common.{
  ℕ, suc, ◌+◌, ◌≤◌, ◌≡◌, ◌≢◌, refl, Bool, true, false, Option, some, none, String, List, [], ◌∷◌,
  ◌++◌, arith, update, length, ◌==◌, ==-ne, Bool-cases, inl, inr,
}
use flualibs.Common.Int.{ℤ, pos}
use flualibs.Lua.{Value, Fields, Meta, Userdata, Store}
use flualibs.Lua.Run.{Run, Cmd, LuaError, arg_error, done, raised, raise, Api, ◌>>=◌, ◌>>◌}
use flualibs.Utils.{fatal, new}
use flualibs.Heap.{alloc, store, free}
use flualibs.Heap.Cells.{Same, store-done, free-done}
use flualibs.Refcount.{refcount_init}
use flualibs.Pthread.Defs.{Rc, RcStore, Lib}
use flualibs.Pthread.Create.{
  must, fresh, counted, publish, initialised, allocate_object, with_attr, l_pthread_mutex_new,
}

abbrev pub userdata_for : Meta → ℕ → Userdata
userdata_for m p = record { meta = m; cookie = Value.light p; ref = Value.nil; block = none }

-- One more object at `p`, with one reference, which a new userdata holds.
pub record Made (s t : RcStore) (m : Meta) (p : ℕ) : Type 0 where
  pub ne_null : p ≢ 0
  pub unused : s.next ≤ p
  pub object : Rc
  pub at : t.cell p ≡ some object
  pub one : object.refs ≡ 1
  pub others : (q : ℕ) → q ≢ p → t.cell q ≡ s.cell q
  pub uds : t.uds ≡ s.uds ++ userdata_for m p ∷ []
  pub next : suc p ≤ t.next

pub data Created (s : RcStore) (m : Meta) : Run RcStore (List Value) → Type 0 where
  made :
      (t : RcStore) (p : ℕ)
      → Made s t m p
      → Created s m (done (Value.userdata (length s.uds) ∷ []) t)
  failed : (vs : List Value) (t : RcStore) → Same s t → Created s m (done vs t)
  rejected : (e : LuaError) (t : RcStore) → Same s t → Created s m (raised e t)

abbrev pub taken : RcStore → Rc → RcStore
taken s r = record s { cell = update s.cell s.next (some r); next = s.next + 1 }

abbrev pub wasted : RcStore → RcStore
wasted s = record s { next = s.next + 1 }

module _ (s : RcStore) (m : Meta) (fresh_next : 1 ≤ s.next)
    (empty : (q : ℕ) → s.next ≤ q → s.cell q ≡ none) where
  ne_null : s.next ≢ 0
  ne_null = omega arith

  Same-freed :
      (r : Rc)
      → Same s (record (taken s r) { cell = update (update s.cell s.next (some r)) s.next none })
  Same-freed r = record { cells = λ q. ground (arith, empty q); uds = refl; next = omega arith }

  Same-wasted : Same s (wasted s)
  Same-wasted = record { cells = λ q. refl; uds = refl; next = omega arith }

  Same-self : Same s s
  Same-self = record { cells = λ q. refl; uds = refl; next = omega arith }

  taken-at : (r : Rc) → (taken s r).cell s.next ≡ some r
  taken-at r = ground arith

  free-taken :
      (r : Rc)
      → free s.next (taken s r)
        ≡ done tt (record (taken s r) { cell = update (update s.cell s.next (some r)) s.next none })
  free-taken r = free-done s.next (taken s r) ne_null (taken-at r)

  alloc-taken :
      (oom : ℕ → Bool) (r : Rc) → oom s.next ≡ false → alloc oom r s ≡ done s.next (taken s r)
  alloc-taken oom r h = unfold alloc in ground arith

  alloc-wasted : (oom : ℕ → Bool) (r : Rc) → oom s.next ≡ true → alloc oom r s ≡ done 0 (wasted s)
  alloc-wasted oom r h = unfold alloc in ground arith

  module _ (api : Api) (lib : Lib) (oom : ℕ → Bool) where
    publish-Created :
        (r : Rc) (handle : ℤ) → Created s m (publish api lib oom m s.next handle (taken s r))
    unfolding new
    publish-Created r handle =
        rw (store-done s.next (taken s r) ne_null (taken-at r) (counted handle)) (
          made _ s.next (record {
            ne_null = ne_null;
            unused = omega arith;
            object = counted handle;
            at = ground arith;
            one = refl;
            others = λ q ne. ground arith;
            uds = refl;
            next = omega arith;
          }))

    initialised-Created :
        (r : Rc) (attr_destroy : String) (error error1 : ℕ)
        → Created s m (initialised api lib oom m attr_destroy error error1 s.next (taken s r))
    initialised-Created r attr_destroy error error1 = elim (Bool-cases (error1 == 0)) [
      | inl ok ↦ rw ok (elim (Bool-cases (error == 0)) [
        | inl fine ↦ rw fine (publish-Created r (pos 0))
        | inr bad ↦ rw (bad, free-taken r) (failed _ _ (Same-freed r))
      ])
      | inr bad ↦ rw (bad, free-taken r) (rejected _ _ (Same-freed r))
    ]

    -- `must` either goes on or raises, without a change.
    must-Created :
        (name : String) (t : RcStore) (next : Cmd RcStore (List Value))
        → Same s t
        → Created s m (next t)
        → Created s m ((must lib name >> next) t)
    must-Created name t next same h = elim (Bool-cases (lib.call name [] == 0)) [
      | inl ok ↦ rw ok h
      | inr bad ↦ rw bad (rejected _ _ same)
    ]

    allocate_object-Created :
        (attr_destroy init : String) (args : List ℤ)
        → Created s m (allocate_object api lib oom m attr_destroy init args s)
    allocate_object-Created attr_destroy init args = elim (Bool-cases (oom s.next)) [
      | inl full ↦
          rw (alloc-wasted oom (fresh (pos 0)) full)
            (must-Created attr_destroy (wasted s) _ Same-wasted (rejected _ _ Same-wasted))
      | inr room ↦
          rw (alloc-taken oom (fresh (pos 0)) room, ==-ne s.next 0 ne_null)
            (initialised-Created (fresh (pos 0)) attr_destroy (lib.call init (pos s.next ∷ args))
              (lib.call attr_destroy []))
    ]

    with_attr-Created :
        (check : Fields → Bool) (attr_destroy : String) (v : Value)
        (next : Cmd RcStore (List Value))
        → Created s m (next s)
        → Created s m (with_attr api lib oom check attr_destroy v next s)
    with_attr-Created check attr_destroy (Value.table vs fs) next h = elim (Bool-cases (check fs)) [
      | inl ok ↦ rw ok h
      | inr bad ↦ rw bad (must-Created attr_destroy s _ Same-self (rejected _ _ Same-self))
    ]
    with_attr-Created check attr_destroy Value.nil next h = h
    with_attr-Created check attr_destroy Value.absent next h = h
    with_attr-Created check attr_destroy v next h =
        must-Created attr_destroy s _ Same-self (rejected _ _ Same-self)
