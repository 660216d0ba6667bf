-- ===== src/Sys/Keeps.antt =====
-- What the memory of a module under sys/ is compared with: the memory before the call.
use flualibs.Common.{ℕ, ◌≤◌, ◌≡◌, ◌≢◌, none, List}
use flualibs.Lua.{Value}
use flualibs.Lua.Run.{Run, LuaError, done, raised}
use flualibs.Sys.{Memory}

-- The addresses that malloc gives next are not in use.
pub record Fresh (s : Memory) : Type 0 where
  pub not_null : s.next ≢ 0
  pub unused : (q : ℕ) → s.next ≤ q → s.cell q ≡ none

abbrev pub SameCells : Memory → Memory → Type 0
SameCells s t = (q : ℕ) → t.cell q ≡ s.cell q

-- What a call leaves behind: as it was, with at most some fresh address used up.
pub data KeepsCells (m : Memory) (r : Run Memory (List Value)) : Type 0 where
  returns : (vs : List Value) (t : Memory) → SameCells m t → r ≡ done vs t → KeepsCells m r
  raises : (e : LuaError) (t : Memory) → SameCells m t → r ≡ raised e t → KeepsCells m r
