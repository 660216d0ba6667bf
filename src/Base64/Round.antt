-- ===== src/Base64/Round.antt =====
-- The sizes of the buffers of b64/lua_b64.c are enough, and an encoded string is decoded.
use flualibs.Common.{
  ℕ, ◌+◌, ◌*◌, ◌/◌, ◌^◌, ◌≤◌, ◌<◌, ◌≡◌, ◌≢◌, refl, ap, ◌∙◌, arith, Bool, true, false, none, some,
  leb, List, [], ◌∷◌, length, update, update_self, update-update, ==-ne,
}
use flualibs.Common.Int.{ℤ, pos}
use flualibs.Lua.{Value}
use flualibs.Lua.Stack.{take}
use flualibs.Lua.Run.{done, Api, checkstring}
use flualibs.Heap.{alloc, free}
use flualibs.Heap.Cells.{Same, free-done}
use flualibs.Base64.{Buffers, encoded_size, decoded_size, l_b64_encode, l_b64_decode}

take-length : (xs : List ℕ) → take (length xs) xs ≡ xs
take-length [] = refl
take-length (x ∷ xs) = ap (λ ys. x ∷ ys) (take-length xs)

leb_refl : (n : ℕ) → leb n n ≡ true
leb_refl n = ground arith

-- The buffer of `encode` holds four characters for every three bytes or part of three, and a NUL.
encoded_size-fits : (n : ℕ) → n < 2 ^ 61 → 4 * ((n + 2) / 3) + 1 ≤ encoded_size n
encoded_size-fits n lt = omega arith

-- The buffer of `decode` holds three bytes for every four characters.
decoded_size-fits : (k : ℕ) → k < 2 ^ 60 → decoded_size (4 * k) ≡ 3 * k
decoded_size-fits k lt = omega arith

module _ (s : Buffers) (fresh_next : 1 ≤ s.next) (empty : (q : ℕ) → s.next ≤ q → s.cell q ≡ none)
    (oom : ℕ → Bool) (room : oom s.next ≡ false) where
  abbrev taken : ℕ → Buffers
  taken n = record s { cell = update s.cell s.next (some n); next = s.next + 1 }

  abbrev returned : Buffers
  returned = record s { cell = update s.cell s.next none; next = s.next + 1 }

  next_ne : s.next ≢ 0
  next_ne = omega arith

  alloc-taken : (n : ℕ) → alloc oom n s ≡ done s.next (taken n)
  alloc-taken n = unfold alloc in ground arith

  free-taken : (n : ℕ) → free s.next (taken n) ≡ done tt returned
  free-taken n =
      free-done s.next (taken n) next_ne (update_self s.cell s.next _)
      ∙ ap (λ c. done tt (record s { cell = c; next = s.next + 1 }))
          (update-update s.cell s.next _ _)

  Same-returned : Same s returned
  Same-returned = record { cells = λ q. ground (arith, empty q); uds = refl; next = omega arith }

  module _ (api : Api) (enomem einval : ℕ) (ntop pton : List ℕ → ℕ → ℤ × List ℕ)
      (coding : List ℕ → List ℕ)
      (size : (bs : List ℕ) → length (coding bs) ≡ 4 * ((length bs + 2) / 3)) where
    -- Where the coding has four characters for every three bytes or part of three, `b64_ntop` writes a coding
    -- whose length is an `int` into a buffer that is longer and returns the length, and fresh
    -- addresses are unused: `encode`, with memory for the buffer, on bytes whose coding has a length that is
    -- an `int`, gives the coding and keeps no memory.
    pub l_b64_encode-fits :
        ((bs : List ℕ) (n : ℕ)
          → length (coding bs) < 2 ^ 31
          → length (coding bs) < n
          → ntop bs n ≡ (pos (length (coding bs)), coding bs))
        → (v : Value) (bs : List ℕ) → api.to_string v ≡ some bs
        → length (coding bs) < 2 ^ 31
        → (t : Buffers) × (l_b64_encode api oom enomem einval ntop pton v s
            ≡ done (Value.string (coding bs) ∷ []) t)
          × Same s t
    unfolding l_b64_encode
    l_b64_encode-fits writes v bs given short =
        let enough : length (coding bs) < encoded_size (length bs) =
          omega (arith, size bs, encoded_size-fits (length bs) (omega (arith, size bs))) in
        (
          returned,
          rw
              (
                checkstring,
                given,
                alloc-taken (encoded_size (length bs)),
                ==-ne s.next 0 next_ne,
                writes bs (encoded_size (length bs)) short enough,
                leb_refl (length (coding bs)),
                take-length (coding bs),
                free-taken (encoded_size (length bs)),
              )
              refl,
          Same-returned,
        )

    -- Where the coding has four characters for every three bytes or part of three, `b64_pton` reads a coding
    -- whose length is an `int` back into a buffer for as many times three bytes and returns the number of
    -- bytes, and fresh addresses are unused: `decode` on such a coding, with memory for the buffer, gives
    -- the bytes and keeps no memory.
    pub l_b64_decode-coding :
        ((bs : List ℕ) (n : ℕ)
          → length (coding bs) < 2 ^ 31
          → 3 * ((length bs + 2) / 3) ≤ n
          → pton (coding bs) n ≡ (pos (length bs), bs))
        → (v : Value) (bs : List ℕ) → api.to_string v ≡ some (coding bs)
        → length (coding bs) < 2 ^ 31
        → (t : Buffers) × (l_b64_decode api oom enomem einval ntop pton v s
            ≡ done (Value.string bs ∷ []) t)
          × Same s t
    unfolding l_b64_decode
    l_b64_decode-coding reads v bs given short =
        let groups : (length bs + 2) / 3 < 2 ^ 60 = omega (arith, size bs) in
        let exact : decoded_size (length (coding bs)) ≡ 3 * ((length bs + 2) / 3) =
          ap decoded_size (size bs) ∙ decoded_size-fits ((length bs + 2) / 3) groups in
        (
          returned,
          rw
              (
                checkstring,
                given,
                alloc-taken (decoded_size (length (coding bs))),
                ==-ne s.next 0 next_ne,
                reads bs (decoded_size (length (coding bs))) short (omega (arith, exact)),
                leb_refl (length bs),
                take-length bs,
                free-taken (decoded_size (length (coding bs))),
              )
              refl,
          Same-returned,
        )
