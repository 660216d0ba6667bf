-- ===== src/Lua/Values.antt =====
-- Lua values as `lua_type` tells them apart, full userdata, and the part of the Lua state and of the
-- C heap that the C functions change.
use text.Mathlib.Text.{◌==◌ as str_eq}
use flualibs.Common.{
  ℕ, suc, Bool, Option, String, List, ◌==◌, if◌then◌else◌, ◌-◌, none, some, get_elem?,
}
use flualibs.Common.Int.{ℤ}

mutual
  -- `absent` is LUA_TNONE. A float carries the integer that it converts to, if there is one. A table
  -- has its sequence and its string keys. A Lua function is its place among the closures of its state.
  pub data Value : Type 0 where
    absent nil : Value
    boolean : Bool → Value
    light : ℕ → Value
    integer : ℤ → Value
    float : Option ℤ → Value
    string : List ℕ → Value
    table : Items → Fields → Value
    function : ℕ → Value
    cfunction : ℕ → Value
    userdata : ℕ → Value
    thread : ℕ → Value

  pub data Items : Type 0 where
    last : Items
    item : Value → Items → Items

  pub data Fields : Type 0 where
    end : Fields
    field : String → Value → Fields → Fields

-- `lua_getfield` on a table's string keys: a missing key gives nil.
abbrev pub getfield : Fields → String → Value
getfield end k = nil
getfield (field j v fs) k = if str_eq j k then v else getfield fs k

abbrev pub length_items : Items → ℕ
length_items last = 0
length_items (item v vs) = suc (length_items vs)

-- The value at an index of the stack, or none above its top.
abbrev pub value_at : ℕ → List Value → Value
value_at i stack = elim (get_elem? stack (i - 1)) [ none ↦ absent | some v ↦ v ]

-- The metatables, by the names under which the modules register them.
pub data Meta : Type 0 where
  file aiocb dir eventfd inotify kqueue mqd cpuset : Meta
  pthread once mutex cond rwlock key barrier rendezvous : Meta

abbrev tag : Meta → ℕ
tag file = 0
tag aiocb = 1
tag dir = 2
tag eventfd = 3
tag kqueue = 4
tag mqd = 5
tag cpuset = 6
tag pthread = 7
tag once = 8
tag mutex = 9
tag cond = 10
tag rwlock = 11
tag key = 12
tag barrier = 13
tag rendezvous = 14
tag inotify = 15

abbrev pub same_meta : Meta → Meta → Bool
same_meta a b = tag a == tag b

-- A full userdata: its metatable, its user values (COOKIE or
-- FILEDESC, and REF), and the integer in its block (of a
-- file handle and of a kqueue, the descriptor; none if a stream is closed).
pub record Userdata : Type 0 where
  pub meta : Meta
  pub cookie : Value
  pub ref : Value
  pub block : Option ℤ

-- The C heap holds objects of one type at addresses other than 0; `none` is memory that is not
-- allocated or was freed. Addresses from `next` on are fresh. A userdata is its place in `uds`.
pub record Store (Obj : Type 0) : Type 0 where
  pub cell : ℕ → Option Obj
  pub next : ℕ
  pub uds : List Userdata
