-- ===== src/Pthread/Copy/Documented.antt =====
-- The copies that pthread.3lua documents for `copyn` of libpthread/lua_pthread.c, in which every upvalue `_ENV`
-- is the globals of the target, and when `copyn` makes them.
use text.Mathlib.Text.{◌==◌ as str_eq}
use flualibs.Common.{
  ℕ, ◌+◌, ◌≡◌, Bool, true, false, not, some, String, List, [], ◌∷◌, get_elem?, ◌&&◌, ◌||◌, arith,
}
use flualibs.Lua.{Value}
use flualibs.Pthread.Copy.{Closure, Closures, Copied, copied, refused, out_of_stack}
use flualibs.Pthread.Copy.Meaning.{
  plain, Extends, Refuses, Copies, Upvalues, as_it_is, closure, none_left, environment,
  lost_environment, other,
}

-- No upvalue but the first is `_ENV`.
abbrev pub env_only_first : Bool → List (String × Value) → Bool
env_only_first first [] = true
env_only_first first ((name, v) ∷ us) =
    (first || not (str_eq name "_ENV")) && env_only_first false us

module _ (from : Closures) (globals : Value) where
  mutual
    -- `w` is the documented copy of `v`: a plain value is itself, and a function has the same prototype,
    -- documented copies of its upvalues, and the globals for each upvalue `_ENV`.
    pub data Documented (to : Closures) : Value → Value → Type 0 where
      same_value : (v : Value) → plain v ≡ true → Documented to v v
      function :
          (f g : ℕ) (c d : Closure)
          → get_elem? from f ≡ some c
          → get_elem? to g ≡ some d
          → d.proto ≡ c.proto
          → DocumentedUpvalues to c.upvalues d.upvalues
          → Documented to (Value.function f) (Value.function g)

    pub data DocumentedUpvalues (to : Closures)
        : List (String × Value) → List (String × Value) → Type 0 where
      no_upvalues : DocumentedUpvalues to [] []
      env :
          (name : String) (v : Value) {us ws : List (String × Value)}
          → str_eq name "_ENV" ≡ true
          → DocumentedUpvalues to us ws
          → DocumentedUpvalues to ((name, v) ∷ us) ((name, globals) ∷ ws)
      upvalue :
          (name : String) {v w : Value} {us ws : List (String × Value)}
          → str_eq name "_ENV" ≡ false
          → Documented to v w
          → DocumentedUpvalues to us ws
          → DocumentedUpvalues to ((name, v) ∷ us) ((name, w) ∷ ws)

  -- The rows have documented copies at the same places.
  pub data DocumentedAll (to : Closures) : List Value → List Value → Type 0 where
    no_copies : DocumentedAll to [] []
    and_copy :
        {v w : Value} {vs ws : List Value}
        → Documented to v w
        → DocumentedAll to vs ws
        → DocumentedAll to (v ∷ vs) (w ∷ ws)

  module _ (slot : Bool) (dumps : ℕ → Bool) where
    -- How a copy of the values at `idx` and above ends where each copy is a documented one.
    pub data EndedDocumented (idx : ℕ) (to : Closures) (vs : List Value)
        : Copied (List Value) → Type 0 where
      complete :
          (ws : List Value) (more : Closures)
          → Extends to more
          → DocumentedAll more vs ws
          → EndedDocumented idx to vs (copied ws more)
      rejected :
          (k : ℕ) (v : Value) {i : ℕ}
          → i ≡ idx + k
          → get_elem? vs k ≡ some v
          → Refuses slot dumps from globals v
          → EndedDocumented idx to vs (refused i)
      too_deep : EndedDocumented idx to vs out_of_stack

  module _ (slot : Bool) (dumps : ℕ → Bool)
      (first_only : (f : ℕ) (c : Closure)
        → get_elem? from f ≡ some c
        → env_only_first true c.upvalues ≡ true) where
    mutual
      Copies-Documented :
          {to : Closures} {v w : Value} → Copies slot dumps from globals to v w → Documented to v w
      Copies-Documented (as_it_is v p) = same_value v p
      Copies-Documented (closure f g c d at there same us) =
          function f g c d at there same (Upvalues-Documented us (first_only f c at))

      Upvalues-Documented :
          {to : Closures} {first : Bool} {us ws : List (String × Value)}
          → Upvalues slot dumps from globals to first us ws
          → env_only_first first us ≡ true
          → DocumentedUpvalues to us ws
      Upvalues-Documented (none_left first) h = no_upvalues
      Upvalues-Documented (environment name v e us) h = env name v e (Upvalues-Documented us h)
      Upvalues-Documented (lost_environment name v e us) h = absurd (ground arith)
      Upvalues-Documented (other first name e c us) h =
          upvalue name e (Copies-Documented c) (Upvalues-Documented us (ground arith))
