-- ===== src/Pthread/Copy/Depth.antt =====
-- The recursion of `copyn` of libpthread/lua_pthread.c over upvalues: where it ends, where it does not,
-- and what becomes of `_ENV`.
use text.Mathlib.Text.{◌==◌ as str_eq}
use flualibs.Common.{
  ℕ, zero, suc, ◌+◌, ◌<◌, ◌≤◌, ◌≡◌, refl, sym, arith, Bool, true, false, some, String, List, [],
  ◌∷◌, ◌++◌, get_elem?, length, if◌then◌else◌, Bool-cases, Option-cases, inl, inr,
}
use flualibs.Lua.{Value}
use flualibs.Pthread.Copy.{
  Closure, Closures, Copied, copied, refused, out_of_stack, and_then, nested, loaded_upvalue,
  copy_upvalues, push_closure, copy_value, copy_closure, copyn,
}
use flualibs.Pthread.Copy.Meaning.{plain}
use flualibs.Pthread.Copy.Whole.{copy_value-plain}

-- The copy came to an end.
abbrev pub Ends : {A : Type 0} → Copied A → Type 0
Ends (copied a to) = Unit
Ends (refused i) = Unit
Ends out_of_stack = ⊥

-- How deep a value nests, if `rank` bounds the nesting below each function.
abbrev pub nesting : (ℕ → ℕ) → Value → ℕ
nesting rank (Value.function f) = suc (rank f)
nesting rank v = 0

abbrev pub AllWithin : (ℕ → ℕ) → ℕ → List (String × Value) → Type 0
AllWithin rank n [] = Unit
AllWithin rank n ((name, v) ∷ us) = (nesting rank v ≤ n) × AllWithin rank n us

module _ (slot : Bool) (dumps : ℕ → Bool) (from : Closures) (globals : Value) where
  and_then-Ends :
      {A B : Type 0} (r : Copied A) (k : A → Closures → Copied B)
      → Ends r
      → ((a : A) (to : Closures) → Ends (k a to))
      → Ends (and_then r k)
  and_then-Ends (copied a to) k h all = all a to
  and_then-Ends (refused i) k h all = tt
  and_then-Ends out_of_stack k h all = elim h [ ]

  copy_upvalues-Ends :
      (rank : ℕ → ℕ) (n : ℕ) (copy : Value → Closures → Copied Value)
      → ((v : Value) (to : Closures) → nesting rank v ≤ n → Ends (copy v to))
      → (first : Bool) (us : List (String × Value)) (to : Closures) → AllWithin rank n us
      → Ends (copy_upvalues copy globals first us to)
  unfolding copy_upvalues
  copy_upvalues-Ends rank n copy each first [] to h = tt
  copy_upvalues-Ends rank n copy each first ((name, v) ∷ us) to (le, h) =
      and_then-Ends
        (if str_eq name "_ENV" then copied (loaded_upvalue first globals) to else copy v to) _
        (elim (Bool-cases (str_eq name "_ENV")) [ inl e ↦ rw e tt | inr e ↦ rw e (each v to le) ])
        λ w mid.
          and_then-Ends (copy_upvalues copy globals false us mid) _
            (copy_upvalues-Ends rank n copy each false us mid h) λ ws more. tt

  nested-Ends :
      (rank : ℕ → ℕ) (n idx : ℕ) (copy : Value → Closures → Copied Value)
      → ((v : Value) (to : Closures) → nesting rank v ≤ n → Ends (copy v to))
      → (v : Value) (to : Closures) → nesting rank v ≤ n
      → Ends (nested slot copy idx v to)
  nested-Ends rank n idx copy each (Value.function f) to le = elim (Bool-cases slot) [
    | inl e ↦ rw e tt
    | inr e ↦ rw e (each (Value.function f) to le)
  ]
  nested-Ends rank n idx copy each v to le = each v to le

  -- If the upvalues of each function nest less deep than the function, a copy ends with a stack for the
  -- nesting of the value.
  pub copy_value-Ends :
      (rank : ℕ → ℕ)
      → ((f : ℕ) (c : Closure) → get_elem? from f ≡ some c → AllWithin rank (rank f) c.upvalues)
      → (depth idx : ℕ) (v : Value) (to : Closures) → nesting rank v < depth
      → Ends (copy_value slot dumps from globals depth idx v to)
  unfolding copy_value copy_closure
  copy_value-Ends rank ranked zero idx v to lt = absurd (omega arith)
  copy_value-Ends rank ranked (suc depth) idx (Value.function f) to lt =
      elim (Option-cases (get_elem? from f)) [
        | inl e ↦ rw e tt
        | inr (c, e) ↦ elim (Bool-cases (dumps c.proto)) [
          | inr d ↦ rw (e, d) tt
          | inl d ↦
              rw (e, d)
                (and_then-Ends _ (push_closure c.proto)
                  (copy_upvalues-Ends rank (rank f)
                    (nested slot (copy_value slot dumps from globals depth idx) idx)
                    (nested-Ends rank (rank f) idx (copy_value slot dumps from globals depth idx)
                      λ w mid le. copy_value-Ends rank ranked depth idx w mid (omega arith))
                    true c.upvalues to (ranked f c e))
                  λ ws more. tt)
        ]
      ]
  copy_value-Ends rank ranked (suc depth) idx Value.nil to lt = tt
  copy_value-Ends rank ranked (suc depth) idx v to lt = tt

  pub copyn-Ends :
      (rank : ℕ → ℕ)
      → ((f : ℕ) (c : Closure) → get_elem? from f ≡ some c → AllWithin rank (rank f) c.upvalues)
      → (depth : ℕ) → ((v : Value) → nesting rank v < depth)
      → (idx : ℕ) (vs : List Value) (to : Closures)
      → Ends (copyn slot dumps from globals depth idx vs to)
  unfolding copyn
  copyn-Ends rank ranked depth shallow idx [] to = tt
  copyn-Ends rank ranked depth shallow idx (v ∷ vs) to =
      and_then-Ends (copy_value slot dumps from globals depth idx v to) _
        (copy_value-Ends rank ranked depth idx v to (shallow v))
        λ w mid.
          and_then-Ends (copyn slot dumps from globals depth (idx + 1) vs mid) _
            (copyn-Ends rank ranked depth shallow (idx + 1) vs mid) λ ws more. tt

  -- Where a buffer takes no slot, a function that is dumped and is its own first upvalue, as a recursive
  -- local function is, is copied at no depth: the recursion goes on until the C stack is exhausted.
  pub copy_value-recursive :
      slot ≡ false
      → (f : ℕ) (c : Closure) (name : String) (us : List (String × Value))
      → get_elem? from f ≡ some c
      → dumps c.proto ≡ true
      → c.upvalues ≡ (name, Value.function f) ∷ us
      → str_eq name "_ENV" ≡ false
      → (depth idx : ℕ) (to : Closures)
      → copy_value slot dumps from globals depth idx (Value.function f) to ≡ out_of_stack
  unfolding copy_value copy_closure copy_upvalues
  copy_value-recursive old f c name us at d own ne zero idx to = refl
  copy_value-recursive old f c name us at d own ne (suc depth) idx to =
      rw
        (
          at,
          d,
          own,
          ne,
          old,
          sym old,
          copy_value-recursive old f c name us at d own ne depth idx to,
        )
        refl

  -- Where a buffer takes a slot, a function that is dumped and whose first upvalue, not named `_ENV`, is a
  -- function is refused, whatever that function is.
  pub copy_value-function_upvalue :
      slot ≡ true
      → (f g : ℕ) (c : Closure) (name : String) (us : List (String × Value))
      → get_elem? from f ≡ some c
      → dumps c.proto ≡ true
      → c.upvalues ≡ (name, Value.function g) ∷ us
      → str_eq name "_ENV" ≡ false
      → (depth idx : ℕ) (to : Closures)
      → copy_value slot dumps from globals (suc depth) idx (Value.function f) to ≡ refused idx
  unfolding copy_value copy_closure copy_upvalues
  copy_value-function_upvalue new f g c name us at d own ne depth idx to =
      rw (at, d, own, ne, new) refl

  nested-plain :
      (v : Value)
      → plain v ≡ true
      → (copy : Value → Closures → Copied Value) (idx : ℕ) (to : Closures)
      → nested slot copy idx v to ≡ copy v to
  nested-plain (Value.function f) p copy idx to = absurd (ground arith)
  nested-plain v p copy idx to = refl

  -- A function that is dumped and has two upvalues, a plain value under another name and then `_ENV`, arrives
  -- with nil for `_ENV`: only a first upvalue gets the globals of the target.
  pub copy_value-environment :
      (f : ℕ) (c : Closure) (name : String) (v env : Value)
      → get_elem? from f ≡ some c
      → dumps c.proto ≡ true
      → c.upvalues ≡ (name, v) ∷ ("_ENV", env) ∷ []
      → str_eq name "_ENV" ≡ false
      → plain v ≡ true
      → (depth idx : ℕ) (to : Closures)
      → copy_value slot dumps from globals (suc (suc depth)) idx (Value.function f) to
        ≡ copied
            (Value.function (length to))
            (to ++ record { proto = c.proto; upvalues = (name, v) ∷ ("_ENV", Value.nil) ∷ [] } ∷ [])
  unfolding copy_value copy_closure copy_upvalues
  copy_value-environment f c name v env at d us ne p depth idx to =
      rw
        (
          at,
          d,
          us,
          ne,
          nested-plain v p (copy_value slot dumps from globals (suc depth) idx) idx to,
          copy_value-plain slot dumps from globals v p depth idx to,
        )
        refl
