-- ===== src/Xor/Tests.antt =====
-- A concrete string and key for xor/lua_xor.c.
use flualibs.Common.{ℕ, ◌≡◌, refl, arith, false, Option, some, none, List, [], ◌∷◌}
use flualibs.Lua.{Value, Fields}
use flualibs.Lua.Run.{Api, done, ◌>>=◌}
use flualibs.Xor.{l_xor_apply}
use flualibs.Xor.Twice.{integers, l_xor_apply-twice}

abbrev bytes_of : Value → Option (List ℕ)
bytes_of (Value.string xs) = some xs
bytes_of v = none

abbrev api : Api
api = record {
  to_integer = λ v. none;
  to_string = bytes_of;
  strerror = λ e. e ∷ [];
  fileno_errno = 9;
  sequence = λ v. none;
}

abbrev key : List ℕ
key = 1 ∷ 2 ∷ 4 ∷ 255 ∷ []

l_xor_apply-twice_example :
    (l_xor_apply api 0 12 false
          (Value.string (104 ∷ 105 ∷ []))
          (Value.table (integers key) Fields.end)
        >>= λ out. l_xor_apply api 0 12 false out (Value.table (integers key) Fields.end))
      tt
    ≡ done (Value.string (104 ∷ 105 ∷ [])) tt
l_xor_apply-twice_example =
    l_xor_apply-twice api (λ xs. refl) 0 12 key
      (omega arith, (omega arith, (omega arith, (omega arith, tt)))) refl {S = Unit {0}} tt
      (104 ∷ 105 ∷ []) (omega arith, (omega arith, tt))
