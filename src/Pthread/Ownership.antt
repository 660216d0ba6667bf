-- ===== src/Pthread/Ownership.antt =====
-- Ownership of the counted objects of libpthread/lua_pthread.c: the invariant that a count is the number
-- of userdata that hold the object, kept by constructors, `retain` and finalisers.
pub mod Collecting
pub mod History
pub mod Invariant
use flualibs.Common.{
  ℕ, suc, ◌+◌, ◌-◌, ◌^◌, ◌≤◌, ◌<◌, ◌≡◌, ◌≢◌, refl, ap, Bool, true, false, Option, some, none,
  String, List, [], ◌∷◌, ◌++◌, arith, sym, ◌∙◌, update, length, count, count-append, count-set,
  count-pos, count-le-length, get_elem?, set, ◌==◌, if◌then◌else◌, Bool-cases, inl, inr, eq_of_==,
  Option-cases, length-append,
}
use native.Mathlib.Nat.{le_trans}
use flualibs.Lua.{Value, Meta, Userdata, Store}
use flualibs.Lua.Run.{done, ◌>>=◌, ◌>>◌, pure}
use flualibs.Utils.{new}
use flualibs.Heap.{load, store}
use flualibs.Heap.Cells.{Same, load-done, store-done}
use flualibs.Refcount.{refcount_retain}
use flualibs.Pthread.Defs.{Rc, RcStore}
use flualibs.Pthread.Created.{Made, userdata_for}
use flualibs.Pthread.Handles.{retain}

-- The userdata has the pointer `p`.
abbrev pub points_to : ℕ → Value → Bool
points_to p (Value.light q) = q == p
points_to p v = false

abbrev pub holds : ℕ → Userdata → Bool
holds p d = points_to p d.cookie

-- How many userdata hold the object at `p`.
abbrev pub holders : ℕ → List Userdata → ℕ
holders p uds = count (holds p) uds

-- How many references the memory at an address counts: none where there is no object.
abbrev pub references : Option Rc → ℕ
references none = 0
references (some r) = r.refs

pub record Counted (s : RcStore) : Type 0 where
  pub tally : (p : ℕ) → references (s.cell p) ≡ holders p s.uds
  pub live : (p : ℕ) (r : Rc) → s.cell p ≡ some r → 1 ≤ r.refs
  pub empty : (p : ℕ) → s.next ≤ p → s.cell p ≡ none
  pub null : s.cell 0 ≡ none
  pub start : 1 ≤ s.next
  pub few : length s.uds < 2 ^ 64

pub Same-Counted : {s t : RcStore} → Same s t → Counted s → Counted t
Same-Counted {s} {t} same h = record {
  tally = λ p. rw (same.uds, same.cells p) (h.tally p);
  live = λ p r at. h.live p r (sym (same.cells p) ∙ at);
  empty = λ p le. same.cells p ∙ h.empty p (le_trans same.next le);
  null = same.cells 0 ∙ h.null;
  start = le_trans h.start same.next;
  few = rw same.uds h.few;
}

pub holders-append :
    (q : ℕ) (uds : List Userdata) (m : Meta) (p : ℕ)
    → holders q (uds ++ userdata_for m p ∷ []) ≡ holders q uds + (if p == q then 1 else 0)
holders-append q uds m p = omega (arith, count-append (holds q) uds (userdata_for m p ∷ []))

module _ {s t : RcStore} {m : Meta} {p : ℕ} (new : Made s t m p) (h : Counted s) where
  here : references (t.cell p) ≡ holders p s.uds + 1
  here = rw (new.at, new.one) (omega (arith, h.tally p, ap references (h.empty p new.unused)))

  tally : (q : ℕ) → references (t.cell q) ≡ holders q s.uds + (if p == q then 1 else 0)
  tally q = elim (Bool-cases (p == q)) [
    | inl same ↦ rw (same, sym (eq_of_== p q same)) here
    | inr other ↦ rw (other, new.others q (λ e. ground arith)) (omega (arith, h.tally q))
  ]

  live : (q : ℕ) (r : Rc) → t.cell q ≡ some r → 1 ≤ r.refs
  live q r at = elim (Bool-cases (p == q)) [
    | inl same ↦ ground (arith, new.at, new.one, eq_of_== p q same)
    | inr other ↦ h.live q r (sym (new.others q (λ e. ground arith)) ∙ at)
  ]

  pub Made-Counted : length t.uds < 2 ^ 64 → Counted t
  Made-Counted few = record {
    tally = λ q. rw (new.uds, holders-append q s.uds m p) (tally q);
    live = live;
    empty = λ q le.
        new.others q (omega (arith, new.next)) ∙ h.empty q (omega (arith, new.unused, new.next));
    null = new.others 0 (λ e. new.ne_null (sym e)) ∙ h.null;
    start = omega (arith, new.next);
    few = few;
  }

-- A userdata that holds a pointer points to an object that is allocated.
pub record Held (s : RcStore) (p : ℕ) : Type 0 where
  pub object : Rc
  pub at : s.cell p ≡ some object
  pub ne_null : p ≢ 0
  pub refs : object.refs ≡ holders p s.uds
  pub small : object.refs < 2 ^ 64

pub Held-of : {s : RcStore} (h : Counted s) (p : ℕ) → 1 ≤ holders p s.uds → Held s p
Held-of {s} h p held = elim (Option-cases (s.cell p)) [
  | inl gone ↦ absurd (omega (arith, held, h.tally p, ap references gone))
  | inr (r, at) ↦ record {
    object = r;
    at = at;
    ne_null = λ null. omega (arith, held, h.tally p, ap references (ap s.cell null ∙ h.null));
    refs = sym (ap references at) ∙ h.tally p;
    small = omega (arith, ap references at, h.tally p, count-le-length (holds p) s.uds, h.few);
  }
]

-- One more reference, for one more userdata.
abbrev pub retained : (s : RcStore) (m : Meta) (p : ℕ) → Rc → RcStore
retained s m p r = record s {
  cell = update s.cell p (some (record r { refs = r.refs + 1 }));
  uds = s.uds ++ userdata_for m p ∷ [];
}

module _ {s : RcStore} {p : ℕ} (h : Counted s) (held : Held s p) (m : Meta)
    (few : length (s.uds ++ userdata_for m p ∷ []) < 2 ^ 64) where
  open held use {object, at, ne_null, refs, small}

  room : refcount_retain object.refs ≡ object.refs + 1
  room = omega (
    arith,
    refs,
    count-le-length (holds p) s.uds,
    few,
    length-append s.uds (userdata_for m p ∷ []),
  )

  pub retain-done :
      retain m (Value.light p) s ≡ done (Value.userdata (length s.uds) ∷ []) (retained s m p object)
  unfolding retain new
  retain-done = rw (load-done p s ne_null at, store-done p s ne_null at, room) refl

  pub retain-Counted : Counted (retained s m p object)
  retain-Counted = record {
    tally = λ q. ground (arith, h.tally q, holders-append q s.uds m p, ap references at);
    live = λ q r there. ground (arith, h.live q r);
    empty = λ q le. ground (arith, h.empty q le);
    null = ground (arith, h.null, ne_null);
    start = h.start;
    few = few;
  }
