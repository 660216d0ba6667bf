-- ===== src/Pthread/Tests/Copies.antt =====
-- Concrete values that `copyn` of libpthread/lua_pthread.c copies to another state.
use mathlib.Core.Option.{some-injective}
use mathlib.Core.Path.{subst}
use flualibs.Common.{
  ℕ, zero, suc, ◌≡◌, refl, arith, Bool, true, false, some, List, [], ◌∷◌, get_elem?,
}
use flualibs.Common.Int.{pos}
use flualibs.Lua.{Value}
use flualibs.Pthread.Copy.{Closure, Closures, copied, refused, out_of_stack, copy_value, copyn}
use flualibs.Pthread.Copy.Whole.{EndedAll, copyn-EndedAll}
use flualibs.Pthread.Copy.Depth.{Ends, AllWithin, copy_value-Ends, copy_value-recursive}

abbrev dumped : ℕ → Bool
dumped proto = true

-- A function with a number and the globals, one that calls the first, and one that calls itself.
abbrev functions : Closures
functions =
    record { proto = 10; upvalues = ("n", Value.integer (pos 7)) ∷ ("_ENV", Value.light 9) ∷ [] }
    ∷ record { proto = 11; upvalues = ("f", Value.function 0) ∷ [] }
    ∷ record { proto = 12; upvalues = ("self", Value.function 2) ∷ [] }
    ∷ []

abbrev row : List Value
row = Value.function 1 ∷ Value.integer (pos 3) ∷ []

copyn-row :
    copyn false dumped functions Value.nil 3 2 row []
    ≡ copied (Value.function 1 ∷ Value.integer (pos 3) ∷ []) (
        record { proto = 10; upvalues = ("n", Value.integer (pos 7)) ∷ ("_ENV", Value.nil) ∷ [] }
        ∷ record { proto = 11; upvalues = ("f", Value.function 0) ∷ [] }
        ∷ [])
unfolding copyn
copyn-row = refl

copyn-userdata :
    copyn false dumped functions Value.nil 3 2 (Value.nil ∷ Value.userdata 0 ∷ []) [] ≡ refused 3
unfolding copyn
copyn-userdata = refl

copyn-EndedAll_example :
    EndedAll false dumped functions Value.nil 2 [] row
      (copyn false dumped functions Value.nil 3 2 row [])
copyn-EndedAll_example = copyn-EndedAll false dumped functions Value.nil 3 2 row []

-- A function with the globals first, and one that calls it.
abbrev with_globals : Closures
with_globals =
    record { proto = 10; upvalues = ("_ENV", Value.light 9) ∷ ("n", Value.integer (pos 7)) ∷ [] }
    ∷ record { proto = 11; upvalues = ("f", Value.function 0) ∷ [] }
    ∷ []

-- The first two functions: the nesting below each.
abbrev two_functions : Closures
two_functions =
    record { proto = 10; upvalues = ("n", Value.integer (pos 7)) ∷ ("_ENV", Value.light 9) ∷ [] }
    ∷ record { proto = 11; upvalues = ("f", Value.function 0) ∷ [] }
    ∷ []

abbrev rank : ℕ → ℕ
rank zero = 0
rank (suc f) = 1

ranked :
    (f : ℕ) (c : Closure) → get_elem? two_functions f ≡ some c → AllWithin rank (rank f) c.upvalues
ranked zero c e =
    subst (λ d. AllWithin rank 0 d.upvalues) (some-injective _ _ e) (omega arith, (omega arith, tt))
ranked (suc zero) c e =
    subst (λ d. AllWithin rank 1 d.upvalues) (some-injective _ _ e) (omega arith, tt)
ranked (suc (suc f)) c e = absurd (ground arith)

copy_value-Ends_example :
    Ends (copy_value false dumped two_functions Value.nil 3 2 (Value.function 1) [])
copy_value-Ends_example =
    copy_value-Ends false dumped two_functions Value.nil rank ranked 3 2 (Value.function 1) []
      (omega arith)

copy_value-recursive_example :
    copy_value false dumped functions Value.nil 100 2 (Value.function 2) [] ≡ out_of_stack
copy_value-recursive_example =
    copy_value-recursive false dumped functions Value.nil refl 2
      (record { proto = 12; upvalues = ("self", Value.function 2) ∷ [] }) "self" [] refl refl refl
      refl 100 2 []
