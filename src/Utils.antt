-- ===== src/Utils.antt =====
-- utils.h: results, userdata that hold a pointer (a "cookie"), and file descriptors as arguments.
-- A pointer is an address of the C heap, 0 for NULL. A function that pushes one value and returns 1
-- gives that value.
pub mod Cookies
use flualibs.Common.{
  ℕ, ◌-◌, ◌≡◌, Bool, true, false, Option, none, some, String, List, [], ◌∷◌, ◌++◌, ◌==◌, not,
  length, get_elem?, set, if◌then◌else◌,
}
use flualibs.Common.Int.{ℤ, pos, negsuc, to_int}
use flualibs.Lua.{Value, Meta, same_meta, Userdata, Store}
use flualibs.Lua.Run.{
  Cmd, LuaError, fatal_error, arg_error, done, fault, pure, raise, argcheck, Api, ◌>>=◌, ◌>>◌,
}

-- `lua_pushinteger(L, true)`.
abbrev pub success : List Value
success = Value.integer (pos 1) ∷ []

abbrev pub fail : Api → ℕ → List Value
fail api error = Value.nil ∷ Value.string (api.strerror error) ∷ Value.integer (pos error) ∷ []

abbrev pub fatal : {S A : Type 0} → String → ℕ → Cmd S A
fatal source error = raise (fatal_error source error)

abbrev cookie_or_null : Value → ℕ
cookie_or_null (Value.light p) = p
cookie_or_null v = 0

module _ {Obj : Type 0} where
  -- `luaL_checkudata`: the userdata and its place.
  abbrev pub checkudata : ℕ → Meta → Value → Cmd (Store Obj) (ℕ × Userdata)
  checkudata i m (Value.userdata u) s = elim (get_elem? s.uds u) [
    | none ↦ raise (arg_error i "userdata expected") s
    | some d ↦
        if same_meta d.meta m then done (u, d) s else raise (arg_error i "userdata expected") s
  ]
  checkudata i m v s = raise (arg_error i "userdata expected") s

  -- `lua_setiuservalue` of the first user value.
  unfoldable pub setuservalue : Value → Value → Cmd (Store Obj) (Unit {0})
  setuservalue (Value.userdata u) x s = elim (get_elem? s.uds u) [
    | none ↦ fault
    | some d ↦ done tt (record s { uds = set s.uds u (record d { cookie = x }) })
  ]
  setuservalue v x s = fault

  -- The user value COOKIE of a userdata is written.
  unfoldable pub setcookie : Value → ℕ → Cmd (Store Obj) (Unit {0})
  setcookie (Value.userdata u) cookie s = elim (get_elem? s.uds u) [
    | none ↦ fault
    | some d ↦ done tt (record s { uds = set s.uds u (record d { cookie = Value.light cookie }) })
  ]
  setcookie v cookie s = fault

  unfoldable pub new : ℕ → Meta → Cmd (Store Obj) Value
  new cookie m s = done (Value.userdata (length s.uds)) (record s {
    uds =
        s.uds
        ++ record { meta = m; cookie = Value.light cookie; ref = Value.nil; block = none } ∷ [];
  })

  unfoldable pub newref : Value → ℕ → Meta → Cmd (Store Obj) Value
  newref ref cookie m s = done (Value.userdata (length s.uds)) (record s {
    uds = s.uds ++ record { meta = m; cookie = Value.light cookie; ref = ref; block = none } ∷ [];
  })

  abbrev pub checklightuserdata : ℕ → Value → Cmd (Store Obj) ℕ
  checklightuserdata i (Value.light p) s = done p s
  checklightuserdata i v s = raise (arg_error i "light userdata expected") s

  abbrev light_cookie : ℕ → Value → Cmd (Store Obj) ℕ
  light_cookie i (Value.light p) s = done p s
  light_cookie i v s = raise (arg_error i "invalid cookie") s

  -- The cookie that the function leaves on the stack.
  unfoldable pub checkcookieuv : ℕ → Meta → Value → Cmd (Store Obj) ℕ
  checkcookieuv i m v = do (u, d) ← checkudata i m v; light_cookie i d.cookie

  unfoldable pub checkcookienull : ℕ → Meta → Value → Cmd (Store Obj) ℕ
  unfolding checkcookieuv
  checkcookienull i m v = do cookie ← checkcookieuv i m v; pure cookie

  unfoldable pub checkcookie : ℕ → Meta → Value → Cmd (Store Obj) ℕ
  unfolding checkcookienull
  checkcookie i m v = do
    cookie ← checkcookienull i m v
    argcheck (not (cookie == 0)) i "cookie expired"
    pure cookie

  -- NULL for a value without the metatable and for a cookie that is no pointer.
  unfoldable pub testcookie : Meta → Value → Cmd (Store Obj) ℕ
  testcookie m (Value.userdata u) s = elim (get_elem? s.uds u) [
    | none ↦ done 0 s
    | some d ↦ done (if same_meta d.meta m then cookie_or_null d.cookie else 0) s
  ]
  testcookie m v s = done 0 s

  abbrev file_descriptor : Api → ℕ → Option ℤ → Cmd (Store Obj) ℤ
  file_descriptor api i none = raise (arg_error i "invalid file handle (closed)")
  file_descriptor api i (some (negsuc n)) =
      if n == 0 then fatal "fileno" api.fileno_errno else pure (negsuc n)
  file_descriptor api i (some (pos n)) = pure (pos n)

  -- An integer, or an open file handle.
  unfoldable pub checkfd : Api → ℕ → Value → Cmd (Store Obj) ℤ
  checkfd api i (Value.integer n) = pure (to_int n)
  checkfd api i v = do (u, d) ← checkudata i Meta.file v; file_descriptor api i d.block
