-- ===== src/Lua/Run.antt =====
-- The outcome of a C function called from Lua, as a monad over a state.
use flualibs.Common.{ℕ, Bool, true, false, Option, none, some, String, List}
use flualibs.Common.Int.{ℤ}
use flualibs.Lua.Values.{Value, Items}

-- What `lua_error` raises, by the call that raised it: `luaL_argerror` (also by a check of a type),
-- `fatal` with its errno, `luaL_error`.
pub data LuaError : Type 0 where
  arg_error : ℕ → String → LuaError
  fatal_error : String → ℕ → LuaError
  error : String → LuaError

-- A raised error keeps what was done before it. `fault` is behaviour that C leaves undefined, such as
-- an access to freed memory, and `aborted` the end of the process by `abort2` or `assert`.
pub data Run (S A : Type 0) : Type 0 where
  done : A → S → Run S A
  raised : LuaError → S → Run S A
  fault aborted out_of_fuel : Run S A

abbrev pub Cmd : Type 0 → Type 0 → Type 0
Cmd S A = S → Run S A

module _ {S : Type 0} where
  abbrev pub pure : {A : Type 0} → A → Cmd S A
  pure a s = done a s

  abbrev pub raise : {A : Type 0} → LuaError → Cmd S A
  raise e s = raised e s

  abbrev pub undefined : {A : Type 0} → Cmd S A
  undefined s = fault

  abbrev pub get : Cmd S S
  get s = done s s

  abbrev pub put : S → Cmd S (Unit {0})
  put t s = done tt t

module _ {S A B : Type 0} where
  abbrev pub and_then : Run S A → (A → Cmd S B) → Run S B
  and_then (done a s) k = k a s
  and_then (raised e s) k = raised e s
  and_then fault k = fault
  and_then aborted k = aborted
  and_then out_of_fuel k = out_of_fuel

  infixl 5 ◌>>=◌ ◌>>◌
  abbrev pub ◌>>=◌ : Cmd S A → (A → Cmd S B) → Cmd S B
  m >>= k = λ s. and_then (m s) k

  abbrev pub ◌>>◌ : Cmd S A → Cmd S B → Cmd S B
  m >> n = m >>= λ _. n

-- `luaL_argcheck`.
abbrev pub argcheck : {S : Type 0} → Bool → ℕ → String → Cmd S (Unit {0})
argcheck true i what = pure tt
argcheck false i what = raise (arg_error i what)

-- What the library takes from Lua and from libc: the conversions of `lua_tointegerx` and
-- `lua_tolstring` (none where there is none), and the text of an errno, the errno that
-- a failing `fileno` sets, and the sequence that `luaL_len` and `lua_geti` give for a value that is
-- no table.
pub record Api : Type 0 where
  pub to_integer : Value → Option ℤ
  pub to_string : Value → Option (List ℕ)
  pub strerror : ℕ → List ℕ
  pub fileno_errno : ℕ
  pub sequence : Value → Option Items

module _ (api : Api) {S : Type 0} where
  -- `luaL_checkinteger` and `luaL_optinteger`.
  abbrev pub checkinteger : ℕ → Value → Cmd S ℤ
  checkinteger i v = elim (api.to_integer v) [
    | none ↦ raise (arg_error i "number expected")
    | some n ↦ pure n
  ]

  abbrev pub optinteger : ℕ → Value → ℤ → Cmd S ℤ
  optinteger i Value.absent d = pure d
  optinteger i Value.nil d = pure d
  optinteger i v d = checkinteger i v

  -- `luaL_checklstring`.
  abbrev pub checkstring : ℕ → Value → Cmd S (List ℕ)
  checkstring i v = elim (api.to_string v) [
    | none ↦ raise (arg_error i "string expected")
    | some s ↦ pure s
  ]
