-- ===== src/Pthread/Ownership/Collecting.antt =====
-- The finalisers of libpthread/lua_pthread.c on objects that are counted: a reference is dropped, and
-- the memory freed with the last one.
use flualibs.Common.{
  ℕ, ◌+◌, ◌-◌, ◌≤◌, ◌≡◌, refl, ap, some, none, String, List, [], arith, ◌∙◌, update, length-set,
  count-set, count-pos, set, ◌==◌, if◌then◌else◌, Bool-cases, inl, inr, ==-refl, update-update,
}
use flualibs.Lua.{Value, Meta, Userdata}
use flualibs.Lua.Run.{Cmd, done}
use flualibs.Utils.Cookies.{HasCookie, checkcookie-done}
use flualibs.Heap.Cells.{load-done, store-done, free-done}
use flualibs.Refcount.{refcount_release}
use flualibs.Pthread.Defs.{Rc, RcStore}
use flualibs.Pthread.Handles.{gc, report, release}
use flualibs.Pthread.Ownership.{holds, points_to, holders, references, Counted, Held, Held-of}

-- The collector's own step after a finaliser: the userdata is gone, and its user values with it.
abbrev pub bury : ℕ → Userdata → RcStore → RcStore
bury u d s = record s { uds = set s.uds u (record d { cookie = Value.nil }) }

-- The memory at `p` after one reference less.
abbrev pub less : ℕ → Rc → RcStore → RcStore
less p r s = record s {
  cell = update s.cell p (if r.refs == 1 then none else some (record r { refs = r.refs - 1 }));
}

-- The answer of a finaliser: only the last reference calls the destructors.
abbrev pub answer : List (String × ℕ) → Rc → Cmd RcStore (List Value)
answer errors r = if r.refs == 1 then report errors else λ t. done [] t

module _ {s : RcStore} {u p : ℕ} {m : Meta} (h : Counted s) (c : HasCookie s u m p) where
  held_once : 1 ≤ holders p s.uds
  held_once = count-pos (holds p) s.uds u c.data_of c.at (rw c.points (==-refl p))

  pub held_by : Held s p
  held_by = Held-of h p held_once

  open held_by use {object, at, ne_null, refs, small}

  first : s.cell p ≡ some object
  first = at

  released : refcount_release object.refs ≡ (object.refs - 1, object.refs == 1)
  released = ap (λ n. (n, object.refs == 1)) (omega (arith, held_once, refs, small))

  abbrev stored : RcStore
  stored = record s { cell = update s.cell p (some (record object { refs = object.refs - 1 })) }

  release-done :
      (errors : List (String × ℕ))
      → release p object errors (object.refs - 1, object.refs == 1) s
        ≡ answer errors object (less p object s)
  release-done errors = elim (Bool-cases (object.refs == 1)) [
    | inl last ↦
        rw (last, store-done p s ne_null at, free-done p stored ne_null here)
          (ap (λ f. report errors (record s { cell = f })) (update-update s.cell p _ none))
    | inr more ↦ rw (more, store-done p s ne_null at) refl
  ]
    where
      here : stored.cell p ≡ some (record object { refs = object.refs - 1 })
      here = ground arith

  pub gc-done :
      (destroy : ℕ → Rc → List (String × ℕ))
      → gc m destroy (Value.userdata u) s ≡ answer (destroy p object) object (less p object s)
  unfolding gc
  gc-done destroy =
      rw (checkcookie-done c 1 ne_null, load-done p s ne_null at)
        (ap (λ x. release p object (destroy p object) x s) released
          ∙ release-done (destroy p object))

  dropped :
      (q : ℕ)
      → holders q (set s.uds u (record c.data_of { cookie = Value.nil }))
          + (if p == q then 1 else 0)
        ≡ holders q s.uds
  dropped q =
      let w : holds q c.data_of ≡ (p == q) = ap (points_to q) c.points in
      omega (
        arith,
        count-set (holds q) s.uds u c.data_of (record c.data_of { cookie = Value.nil }) c.at,
        ap {B = ℕ} (λ b. if b then 1 else 0) w,
      )

  pub less-Counted : Counted (bury u c.data_of (less p object s))
  less-Counted = record {
    tally = λ q. ground (arith, dropped q, h.tally q, ap references at, held_once, refs);
    live = λ q r there. ground (arith, h.live q r, held_once, refs);
    empty = λ q le. ground (arith, h.empty q le, at);
    null = ground (arith, h.null, ne_null);
    start = h.start;
    few = omega (arith, h.few, length-set s.uds u (record c.data_of { cookie = Value.nil }));
  }
