-- ===== src/Pthread/Copy.antt =====
-- `copyn` of libpthread/lua_pthread.c: values copied from one Lua state to another.
pub mod Meaning
pub mod Faithful
pub mod Whole
pub mod Documented
pub mod Depth
use text.Mathlib.Text.{◌==◌ as str_eq}
use flualibs.Common.{
  ℕ, zero, suc, ◌+◌, Bool, true, false, Option, none, some, String, List, [], ◌∷◌, ◌++◌, get_elem?,
  length, if◌then◌else◌,
}
use flualibs.Lua.{Value}

-- A Lua function: its prototype, and its upvalues in their order with the names that `lua_getupvalue`
-- gives.
pub record Closure : Type 0 where
  pub proto : ℕ
  pub upvalues : List (String × Value)

abbrev pub Closures : Type 0
Closures = List Closure

-- The result of a copy: what was pushed, with the closures of the target state; or the index at which a
-- value was refused. Without fuel the C stack is exhausted.
pub data Copied (A : Type 0) : Type 0 where
  copied : A → Closures → Copied A
  refused : ℕ → Copied A
  out_of_stack : Copied A

abbrev pub and_then : {A B : Type 0} → Copied A → (A → Closures → Copied B) → Copied B
and_then (copied a to) k = k a to
and_then (refused i) k = refused i
and_then out_of_stack k = out_of_stack

-- What `luaL_loadbuffer` gives an upvalue: the table of globals to the first, nil to the others.
abbrev pub loaded_upvalue : Bool → Value → Value
loaded_upvalue true globals = globals
loaded_upvalue false globals = Value.nil

-- The loop over the upvalues: `_ENV` is left as it was loaded, the others are copied.
unfoldable pub copy_upvalues :
    (copy : Value → Closures → Copied Value) (globals : Value) (first : Bool)
    → List (String × Value)
    → Closures
    → Copied (List (String × Value))
copy_upvalues copy globals first [] to = copied [] to
copy_upvalues copy globals first ((name, v) ∷ upvalues) to =
    and_then (if str_eq name "_ENV" then copied (loaded_upvalue first globals) to else copy v to)
      λ w to.
        and_then (copy_upvalues copy globals false upvalues to) λ ws to. copied ((name, w) ∷ ws) to

-- The closure is pushed with the upvalues that were copied.
abbrev pub push_closure : ℕ → List (String × Value) → Closures → Copied Value
push_closure proto upvalues to =
    copied (Value.function (length to)) (to ++ record { proto = proto; upvalues = upvalues } ∷ [])

-- The copy of an upvalue, which is on the top of the stack. A buffer that keeps a slot there hides a
-- function from `lua_pushvalue` at -1, and `lua_dump` refuses the slot.
abbrev pub nested :
    Bool → (Value → Closures → Copied Value) → (idx : ℕ) → Value → Closures → Copied Value
nested slot copy idx (Value.function f) to =
    if slot then refused idx else copy (Value.function f) to
nested slot copy idx v to = copy v to

-- `slot` says whether `luaL_buffinit` pushes a slot for the buffer, as from Lua 5.4.3 on. `dumps` says whether `lua_dump` writes a prototype and `luaL_loadbuffer` reads it back; `globals` is the
-- table of globals of the target. Each level of the recursion takes one unit of `depth`.
module _ (slot : Bool) (dumps : ℕ → Bool) (from : Closures) (globals : Value) where
  -- A function that is dumped and loaded, or not.
  unfoldable pub copy_dumped :
      (copy : Value → Closures → Copied Value) (idx : ℕ) → Closure → Bool → Closures → Copied Value
  unfolding copy_upvalues
  copy_dumped copy idx c false to = refused idx
  copy_dumped copy idx c true to =
      and_then (copy_upvalues copy globals true c.upvalues to) (push_closure c.proto)

  unfoldable pub copy_closure :
      (copy : Value → Closures → Copied Value) (idx : ℕ) → Option Closure → Closures → Copied Value
  unfolding copy_dumped
  copy_closure copy idx none to = refused idx
  copy_closure copy idx (some c) to = copy_dumped copy idx c (dumps c.proto) to

  -- The switch on the type of the value at `idx`.
  unfoldable pub copy_value : (depth idx : ℕ) → Value → Closures → Copied Value
  unfolding copy_closure
  copy_value zero idx v to = out_of_stack
  copy_value (suc depth) idx Value.nil to = copied Value.nil to
  copy_value (suc depth) idx (Value.boolean b) to = copied (Value.boolean b) to
  copy_value (suc depth) idx (Value.light p) to = copied (Value.light p) to
  copy_value (suc depth) idx (Value.integer n) to = copied (Value.integer n) to
  copy_value (suc depth) idx (Value.float n) to = copied (Value.float n) to
  copy_value (suc depth) idx (Value.string bs) to = copied (Value.string bs) to
  copy_value (suc depth) idx (Value.function f) to =
      copy_closure (nested slot (copy_value depth idx) idx) idx (get_elem? from f) to
  copy_value (suc depth) idx Value.absent to = refused idx
  copy_value (suc depth) idx (Value.table vs fs) to = refused idx
  copy_value (suc depth) idx (Value.cfunction f) to = refused idx
  copy_value (suc depth) idx (Value.userdata u) to = refused idx
  copy_value (suc depth) idx (Value.thread t) to = refused idx

  -- The values at `idx` and above.
  unfoldable pub copyn : (depth idx : ℕ) → List Value → Closures → Copied (List Value)
  unfolding copy_value
  copyn depth idx [] to = copied [] to
  copyn depth idx (v ∷ vs) to =
      and_then (copy_value depth idx v to)
        λ w to. and_then (copyn depth (idx + 1) vs to) λ ws to. copied (w ∷ ws) to
