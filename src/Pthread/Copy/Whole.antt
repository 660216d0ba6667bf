-- ===== src/Pthread/Copy/Whole.antt =====
-- `copyn` of libpthread/lua_pthread.c on a row of values.
use flualibs.Common.{ℕ, suc, ◌+◌, ◌≡◌, refl, arith, Bool, true, some, List, [], ◌∷◌, get_elem?}
use flualibs.Lua.{Value}
use flualibs.Pthread.Copy.{
  Closures, Copied, copied, refused, out_of_stack, and_then, copy_value, copyn,
}
use flualibs.Pthread.Copy.Meaning.{plain, Extends, Copies, Copies-Extends, Refuses, Ended}
use flualibs.Pthread.Copy.Faithful.{copy_value-Ended}

abbrev pub AllPlain : List Value → Type 0
AllPlain [] = Unit
AllPlain (v ∷ vs) = (plain v ≡ true) × AllPlain vs

module _ (slot : Bool) (dumps : ℕ → Bool) (from : Closures) (globals : Value) where
  pub copy_value-plain :
      (v : Value)
      → plain v ≡ true
      → (depth idx : ℕ) (to : Closures)
      → copy_value slot dumps from globals (suc depth) idx v to ≡ copied v to
  unfolding copy_value
  copy_value-plain Value.nil p depth idx to = refl
  copy_value-plain (Value.boolean b) p depth idx to = refl
  copy_value-plain (Value.light q) p depth idx to = refl
  copy_value-plain (Value.integer n) p depth idx to = refl
  copy_value-plain (Value.float n) p depth idx to = refl
  copy_value-plain (Value.string bs) p depth idx to = refl
  copy_value-plain (Value.function g) p depth idx to = absurd (ground arith)
  copy_value-plain v p depth idx to = absurd (ground arith)

  pub copyn-plain :
      (vs : List Value)
      → AllPlain vs
      → (depth idx : ℕ) (to : Closures)
      → copyn slot dumps from globals (suc depth) idx vs to ≡ copied vs to
  unfolding copyn
  copyn-plain [] h depth idx to = refl
  copyn-plain (v ∷ vs) (p, h) depth idx to =
      rw (copy_value-plain v p depth idx to, copyn-plain vs h depth (idx + 1) to) refl

  -- The rows have copies at the same places.
  pub data CopiesAll (to : Closures) : List Value → List Value → Type 0 where
    no_values : CopiesAll to [] []
    one_more :
        {v w : Value} {vs ws : List Value}
        → Copies slot dumps from globals to v w
        → CopiesAll to vs ws
        → CopiesAll to (v ∷ vs) (w ∷ ws)

  CopiesAll-Extends :
      {to more : Closures} {vs ws : List Value}
      → Extends to more
      → CopiesAll to vs ws
      → CopiesAll more vs ws
  CopiesAll-Extends ext no_values = no_values
  CopiesAll-Extends ext (one_more c h) =
      one_more (Copies-Extends slot dumps from globals ext c) (CopiesAll-Extends ext h)

  -- How a copy of the values at `idx` and above ends. A refusal names the place of a value that cannot be
  -- copied.
  pub data EndedAll (idx : ℕ) (to : Closures) (vs : List Value) : Copied (List Value) → Type 0 where
    complete :
        (ws : List Value) (more : Closures)
        → Extends to more
        → CopiesAll more vs ws
        → EndedAll idx to vs (copied ws more)
    rejected :
        (k : ℕ) (v : Value) {i : ℕ}
        → i ≡ idx + k
        → get_elem? vs k ≡ some v
        → Refuses slot dumps from globals v
        → EndedAll idx to vs (refused i)
    too_deep : EndedAll idx to vs out_of_stack

  rest_copied :
      (idx : ℕ) (to mid : Closures) (v w : Value) (vs : List Value)
      → Extends to mid
      → Copies slot dumps from globals mid v w
      → (r : Copied (List Value)) → EndedAll (idx + 1) mid vs r
      → EndedAll idx to (v ∷ vs) (and_then r λ ws more. copied (w ∷ ws) more)
  rest_copied idx to mid v w vs before c r (EndedAll.complete ws more ext h) =
      EndedAll.complete (w ∷ ws) more (λ g d at. ext g d (before g d at))
        (one_more (Copies-Extends slot dumps from globals ext c) h)
  rest_copied idx to mid v w vs before c r (EndedAll.rejected k bad e at h) =
      EndedAll.rejected (suc k) bad (omega (arith, e)) at h
  rest_copied idx to mid v w vs before c r EndedAll.too_deep = EndedAll.too_deep

  first_copied :
      (idx : ℕ) (to : Closures) (v : Value) (vs : List Value)
      (rest : Closures → Copied (List Value))
      → ((mid : Closures) → EndedAll (idx + 1) mid vs (rest mid))
      → (r : Copied Value) → Ended slot dumps from globals idx to v r
      → EndedAll idx to
          (v ∷ vs)
          (and_then r λ w mid. and_then (rest mid) λ ws more. copied (w ∷ ws) more)
  first_copied idx to v vs rest all r (Ended.complete w mid ext c) =
      rest_copied idx to mid v w vs ext c (rest mid) (all mid)
  first_copied idx to v vs rest all r (Ended.rejected bad) =
      EndedAll.rejected 0 v (omega arith) refl bad
  first_copied idx to v vs rest all r Ended.too_deep = EndedAll.too_deep

  -- If the recursion ends, `copyn` leaves the closures of the target in their places and pushes what arrives
  -- of each value, in their order: a plain value itself, and of a function one with the same prototype and
  -- what arrives of its upvalues, except that an upvalue `_ENV` is the globals of the target if it is the
  -- first upvalue, and nil if it is a later one. Or it answers with the place of a value that cannot be
  -- copied.
  pub copyn-EndedAll :
      (depth idx : ℕ) (vs : List Value) (to : Closures)
      → EndedAll idx to vs (copyn slot dumps from globals depth idx vs to)
  unfolding copyn
  copyn-EndedAll depth idx [] to = EndedAll.complete [] to (λ g c at. at) no_values
  copyn-EndedAll depth idx (v ∷ vs) to =
      first_copied idx to v vs (copyn slot dumps from globals depth (idx + 1) vs)
        (λ mid. copyn-EndedAll depth (idx + 1) vs mid)
        (copy_value slot dumps from globals depth idx v to)
        (copy_value-Ended slot dumps from globals depth idx v to)
