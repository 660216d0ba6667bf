-- ===== src/Heap/Cells.antt =====
-- What a read, a write and a release do at an allocated address.
use flualibs.Common.{ℕ, ◌≤◌, ◌≡◌, ◌≢◌, none, some, arith, update}
use flualibs.Lua.{Store}
use flualibs.Lua.Run.{done, fault}
use flualibs.Heap.{load, store, free}

module _ {Obj : Type 0} (p : ℕ) (s : Store Obj) {o : Obj} (ne : p ≢ 0)
    (at : s.cell p ≡ some o) where
  pub load-done : load p s ≡ done o s
  unfolding load
  load-done = ground arith

  pub store-done : (v : Obj) → store p v s ≡ done tt (record s { cell = update s.cell p (some v) })
  unfolding store
  store-done v = ground arith

  pub free-done : free p s ≡ done tt (record s { cell = update s.cell p none })
  unfolding free
  free-done = ground arith

-- A read and a release where nothing is allocated.
pub load-fault : {Obj : Type 0} (p : ℕ) (s : Store Obj) → s.cell p ≡ none → load p s ≡ fault
unfolding load
load-fault p s at = ground arith

pub free-fault : {Obj : Type 0} (p : ℕ) (s : Store Obj) → p ≢ 0 → s.cell p ≡ none → free p s ≡ fault
unfolding free
free-fault p s ne at = ground arith

-- The same objects and userdata; only fresh addresses may have been used up.
pub record Same {Obj : Type 0} (s t : Store Obj) : Type 0 where
  pub cells : (q : ℕ) → t.cell q ≡ s.cell q
  pub uds : t.uds ≡ s.uds
  pub next : s.next ≤ t.next
