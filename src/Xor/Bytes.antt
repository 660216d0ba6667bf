-- ===== src/Xor/Bytes.antt =====
-- The exclusive or of two bytes undoes itself, by evaluation on every pair.
use Prim.Native.Nat.{bit_xor}
use flualibs.Common.{
  ℕ, zero, suc, ◌+◌, ◌≤◌, ◌<◌, ◌≡◌, refl, sym, ap, Bool-cases, inl, inr, ◌∙◌, arith, Bool, true,
  false, ◌==◌, eq_of_==, if◌then◌else◌,
}

-- Whether the test passes on `start` and on the `more` numbers after it.
passes : (ℕ → Bool) → (start more : ℕ) → Bool
passes test start zero = test start
passes test start (suc more) = if test start then passes test (suc start) more else false

passes-at :
    (test : ℕ → Bool) (start more n : ℕ)
    → passes test start more ≡ true
    → start ≤ n
    → n ≤ start + more
    → test n ≡ true
unfolding passes
passes-at test start zero n h from to = let e : n ≡ start = omega arith in ap test e ∙ h
passes-at test start (suc more) n h from to = elim (Bool-cases (start == n)) [
  | inl same ↦
      let e : n ≡ start = sym (eq_of_== start n same) in
      let here : test start ≡ true = ground arith in ap test e ∙ here
  | inr later ↦
      let rest : passes test (suc start) more ≡ true = ground arith in
      passes-at test (suc start) more n rest (ground arith) (omega arith)
]

undone : passes (λ k. passes (λ x. bit_xor (bit_xor x k) k == x) 0 255) 0 255 ≡ true
unfolding passes
undone = refl

pub xor-xor : (x k : ℕ) → x < 256 → k < 256 → bit_xor (bit_xor x k) k ≡ x
xor-xor x k lx lk =
    let row : passes (λ x. bit_xor (bit_xor x k) k == x) 0 255 ≡ true =
      passes-at (λ k. passes (λ x. bit_xor (bit_xor x k) k == x) 0 255) 0 255 k undone (omega arith)
        (omega arith) in
    eq_of_== _ x (passes-at _ 0 255 x row (omega arith) (omega arith))
