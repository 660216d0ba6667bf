-- ===== src/Lua/Stack.antt =====
-- The stack of a Lua state as a list, its bottom first.
use flualibs.Common.{
  ℕ, zero, suc, ◌+◌, ◌-◌, ◌≡◌, refl, ap, ◌∙◌, arith, List, [], ◌∷◌, ◌++◌, length, length-append,
}

abbrev pub drop : {A : Type 0} → ℕ → List A → List A
drop zero xs = xs
drop (suc n) [] = []
drop (suc n) (x ∷ xs) = drop n xs

abbrev pub take : {A : Type 0} → ℕ → List A → List A
take zero xs = []
take (suc n) [] = []
take (suc n) (x ∷ xs) = x ∷ take n xs

-- The last element comes first.
abbrev pub to_front : {A : Type 0} → List A → List A
to_front [] = []
to_front (x ∷ []) = x ∷ []
to_front (x ∷ y ∷ xs) = elim (to_front (y ∷ xs)) [ [] ↦ x ∷ [] | z ∷ zs ↦ z ∷ x ∷ zs ]

-- `lua_insert`: the top of the stack moves to the place `i`, counted from 0.
abbrev pub insert : {A : Type 0} → ℕ → List A → List A
insert zero xs = to_front xs
insert (suc i) [] = []
insert (suc i) (x ∷ xs) = x ∷ insert i xs

-- The values that a C function returns: the `n` on the top of its stack.
abbrev pub top_values : {A : Type 0} → ℕ → List A → List A
top_values n stack = drop (length stack - n) stack

module _ {A : Type 0} where
  pub drop-append : (xs ys : List A) → drop (length xs) (xs ++ ys) ≡ ys
  drop-append [] ys = refl
  drop-append (x ∷ xs) ys = drop-append xs ys

  pub to_front-append : (xs : List A) (z : A) → to_front (xs ++ z ∷ []) ≡ z ∷ xs
  to_front-append [] z = refl
  to_front-append (x ∷ []) z = refl
  to_front-append (x ∷ y ∷ xs) z = rw (to_front-append (y ∷ xs) z) refl

  pub insert-append : (xs ys : List A) → insert (length xs) (xs ++ ys) ≡ xs ++ to_front ys
  insert-append [] ys = refl
  insert-append (x ∷ xs) ys = ap (λ zs. x ∷ zs) (insert-append xs ys)

  drop_one : (xs : List A) (y : A) (ys : List A) → drop (suc (length xs)) (xs ++ y ∷ ys) ≡ ys
  drop_one [] y ys = refl
  drop_one (x ∷ xs) y ys = drop_one xs y ys

  -- All but one of the values above `xs`.
  pub top_values-append :
      (xs : List A) (y : A) (ys : List A)
      → top_values (length (xs ++ y ∷ ys) - (length xs + 1)) (xs ++ y ∷ ys) ≡ ys
  top_values-append xs y ys =
      let n : length (xs ++ y ∷ ys) - (length (xs ++ y ∷ ys) - (length xs + 1)) ≡ suc (length xs) =
        omega (arith, length-append xs (y ∷ ys)) in
      ap (λ k. drop k (xs ++ y ∷ ys)) n ∙ drop_one xs y ys

  pub take-append : (xs ys : List A) → take (length xs) (xs ++ ys) ≡ xs
  take-append [] [] = refl
  take-append [] (y ∷ ys) = refl
  take-append (x ∷ xs) ys = ap (λ zs. x ∷ zs) (take-append xs ys)

  -- As many values as were pushed last.
  pub top_values-pushed : (xs ys : List A) → top_values (length ys) (xs ++ ys) ≡ ys
  top_values-pushed xs ys =
      let n : length (xs ++ ys) - length ys ≡ length xs = omega (arith, length-append xs ys) in
      ap (λ k. drop k (xs ++ ys)) n ∙ drop-append xs ys
