-- ===== src/Pthread/Copy/Meaning.antt =====
-- What a copy by `copyn` of libpthread/lua_pthread.c is a copy of: the relation between a value and what
-- arrives in the other state, and the values that are refused.
use text.Mathlib.Text.{◌==◌ as str_eq}
use flualibs.Common.{ℕ, ◌≡◌, Bool, true, false, none, some, String, List, [], ◌∷◌, get_elem?}
use flualibs.Lua.{Value}
use flualibs.Pthread.Copy.{Closure, Closures, Copied, copied, refused, out_of_stack}

-- Values that are pushed as they are, and values that are never copied.
abbrev pub plain : Value → Bool
plain Value.nil = true
plain (Value.boolean b) = true
plain (Value.light p) = true
plain (Value.integer n) = true
plain (Value.float n) = true
plain (Value.string bs) = true
plain v = false

abbrev pub opaque_kind : Value → Bool
opaque_kind Value.absent = true
opaque_kind (Value.table vs fs) = true
opaque_kind (Value.cfunction f) = true
opaque_kind (Value.userdata u) = true
opaque_kind (Value.thread t) = true
opaque_kind v = false

-- Every closure of `to` is a closure of `more`, at its place.
abbrev pub Extends : Closures → Closures → Type 0
Extends to more = (g : ℕ) (c : Closure) → get_elem? to g ≡ some c → get_elem? more g ≡ some c

module _ (slot : Bool) (dumps : ℕ → Bool) (from : Closures) (globals : Value) where
  mutual
    -- `w` in the target is what arrives of `v`: a plain value is itself, and a function has the same prototype
    -- and copies of its upvalues, but for `_ENV`: the globals of the target in the first place, and nil
    -- in any other, where the function has lost its environment.
    pub data Copies (to : Closures) : Value → Value → Type 0 where
      as_it_is : (v : Value) → plain v ≡ true → Copies to v v
      closure :
          (f g : ℕ) (c d : Closure)
          → get_elem? from f ≡ some c
          → get_elem? to g ≡ some d
          → d.proto ≡ c.proto
          → Upvalues to true c.upvalues d.upvalues
          → Copies to (Value.function f) (Value.function g)

    pub data Upvalues (to : Closures)
        : Bool → List (String × Value) → List (String × Value) → Type 0 where
      none_left : (first : Bool) → Upvalues to first [] []
      environment :
          (name : String) (v : Value) {us ws : List (String × Value)}
          → str_eq name "_ENV" ≡ true
          → Upvalues to false us ws
          → Upvalues to true ((name, v) ∷ us) ((name, globals) ∷ ws)
      lost_environment :
          (name : String) (v : Value) {us ws : List (String × Value)}
          → str_eq name "_ENV" ≡ true
          → Upvalues to false us ws
          → Upvalues to false ((name, v) ∷ us) ((name, Value.nil) ∷ ws)
      other :
          (first : Bool) (name : String) {v w : Value} {us ws : List (String × Value)}
          → str_eq name "_ENV" ≡ false
          → Copies to v w
          → Upvalues to false us ws
          → Upvalues to first ((name, v) ∷ us) ((name, w) ∷ ws)

  mutual
    pub Copies-Extends :
        {to more : Closures} {v w : Value} → Extends to more → Copies to v w → Copies more v w
    Copies-Extends ext (as_it_is v p) = as_it_is v p
    Copies-Extends ext (closure f g c d at there same us) =
        closure f g c d at (ext g d there) same (Upvalues-Extends ext us)

    pub Upvalues-Extends :
        {to more : Closures} {first : Bool} {us ws : List (String × Value)}
        → Extends to more
        → Upvalues to first us ws
        → Upvalues more first us ws
    Upvalues-Extends ext (none_left first) = none_left first
    Upvalues-Extends ext (environment name v e us) = environment name v e (Upvalues-Extends ext us)
    Upvalues-Extends ext (lost_environment name v e us) =
        lost_environment name v e (Upvalues-Extends ext us)
    Upvalues-Extends ext (other first name e c us) =
        other first name e (Copies-Extends ext c) (Upvalues-Extends ext us)

  mutual
    -- A value that cannot be copied: of a kind that is not, a function that is not dumped, or one of
    -- whose upvalues cannot be copied or is hidden by the slot of a buffer.
    pub data Refuses : Value → Type 0 where
      kind : (v : Value) → opaque_kind v ≡ true → Refuses v
      missing : (f : ℕ) → get_elem? from f ≡ none → Refuses (Value.function f)
      undumped :
          (f : ℕ) (c : Closure)
          → get_elem? from f ≡ some c
          → dumps c.proto ≡ false
          → Refuses (Value.function f)
      within :
          (f : ℕ) (c : Closure)
          → get_elem? from f ≡ some c
          → SomeRefuses c.upvalues
          → Refuses (Value.function f)

    pub data SomeRefuses : List (String × Value) → Type 0 where
      here :
          (name : String) (v : Value) (us : List (String × Value))
          → str_eq name "_ENV" ≡ false
          → Refuses v
          → SomeRefuses ((name, v) ∷ us)
      slotted :
          (name : String) (f : ℕ) (us : List (String × Value))
          → str_eq name "_ENV" ≡ false
          → slot ≡ true
          → SomeRefuses ((name, Value.function f) ∷ us)
      later :
          (u : String × Value) (us : List (String × Value)) → SomeRefuses us → SomeRefuses (u ∷ us)

  -- How the copy of `v` at `idx` ends.
  pub data Ended (idx : ℕ) (to : Closures) (v : Value) : Copied Value → Type 0 where
    complete :
        (w : Value) (more : Closures)
        → Extends to more
        → Copies more v w
        → Ended idx to v (copied w more)
    rejected : Refuses v → Ended idx to v (refused idx)
    too_deep : Ended idx to v out_of_stack

  pub data EndedUpvalues (idx : ℕ) (to : Closures) (first : Bool) (us : List (String × Value))
      : Copied (List (String × Value)) → Type 0 where
    complete :
        (ws : List (String × Value)) (more : Closures)
        → Extends to more
        → Upvalues more first us ws
        → EndedUpvalues idx to first us (copied ws more)
    rejected : SomeRefuses us → EndedUpvalues idx to first us (refused idx)
    too_deep : EndedUpvalues idx to first us out_of_stack
