-- ===== src/Heap.antt =====
-- `malloc`, `calloc` and `free` on the C heap of a store. Whether an allocation fails is decided by
-- the parameter `oom`, at the address that it would give; an address is used for one allocation.
pub mod Cells
use flualibs.Common.{ℕ, ◌+◌, Bool, Option, none, some, ◌==◌, if◌then◌else◌, update}
use flualibs.Lua.{Store}
use flualibs.Lua.Run.{Cmd, done, fault}

module _ {Obj : Type 0} where
  -- `malloc`, with the object that the caller puts there; 0 is NULL.
  unfoldable pub alloc : (oom : ℕ → Bool) → Obj → Cmd (Store Obj) ℕ
  alloc oom o s =
      if oom s.next
      then done 0 (record s { next = s.next + 1 })
      else done s.next (record s { cell = update s.cell s.next (some o); next = s.next + 1 })

  -- A read through a pointer, undefined at NULL and at memory that is not allocated.
  unfoldable pub load : ℕ → Cmd (Store Obj) Obj
  load p s = if p == 0 then fault else elim (s.cell p) [ none ↦ fault | some o ↦ done o s ]

  -- A write through a pointer.
  unfoldable pub store : ℕ → Obj → Cmd (Store Obj) (Unit {0})
  store p o s = if p == 0 then fault else elim (s.cell p) [
    | none ↦ fault
    | some old ↦ done tt (record s { cell = update s.cell p (some o) })
  ]

  -- `free`, which does nothing at NULL.
  unfoldable pub free : ℕ → Cmd (Store Obj) (Unit {0})
  free p s = if p == 0 then done tt s else elim (s.cell p) [
    | none ↦ fault
    | some old ↦ done tt (record s { cell = update s.cell p none })
  ]
