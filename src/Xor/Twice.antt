-- ===== src/Xor/Twice.antt =====
-- `xor.apply` of xor/lua_xor.c with the same key undoes itself.
use flualibs.Common.{
  ℕ, zero, suc, ◌%◌, ◌<◌, ◌≡◌, refl, ap, arith, true, false, some, List, [], ◌∷◌, ltb, length, ◌==◌,
}
use flualibs.Common.Int.{pos}
use flualibs.Lua.{Value, Items, last, item, length_items, Fields}
use flualibs.Lua.Run.{done, Api, checkstring, ◌>>=◌}
use flualibs.Xor.{key_at, key_bytes, xor_from, l_xor_apply}
use flualibs.Xor.Bytes.{xor-xor}

abbrev pub Bytes : List ℕ → Type 0
Bytes [] = Unit
Bytes (b ∷ bs) = (b < 256) × Bytes bs

key_at-Bytes : (key : List ℕ) (i : ℕ) → Bytes key → key_at key i < 256
key_at-Bytes [] i h = omega arith
key_at-Bytes (k ∷ key) zero h = h.0
key_at-Bytes (k ∷ key) (suc i) h = key_at-Bytes key i h.1

xor_from-twice :
    (key : List ℕ) (i : ℕ) (bs : List ℕ)
    → Bytes key
    → Bytes bs
    → xor_from key i (xor_from key i bs) ≡ bs
unfolding xor_from
xor_from-twice key i [] keys bytes = refl
xor_from-twice key i (b ∷ bs) keys (lt, bytes) =
    rw
      (
        xor-xor b (key_at key (i % 4)) lt (key_at-Bytes key (i % 4) keys),
        xor_from-twice key (suc i) bs keys bytes,
      )
      refl

-- The key as a sequence of integers.
abbrev pub integers : List ℕ → Items
integers [] = last
integers (k ∷ ks) = item (Value.integer (pos k)) (integers ks)

length_items-integers : (ks : List ℕ) → length_items (integers ks) ≡ length ks
length_items-integers [] = refl
length_items-integers (k ∷ ks) = ap suc (length_items-integers ks)

key_bytes-integers :
    {S : Type 0} (fraction : ℕ) (ks : List ℕ) (s : S)
    → Bytes ks
    → key_bytes fraction (integers ks) s ≡ done ks s
unfolding key_bytes
key_bytes-integers fraction [] s h = refl
key_bytes-integers fraction (k ∷ ks) s (lt, h) =
    let small : ltb k 256 ≡ true = ground arith in
    rw (small, key_bytes-integers fraction ks s h) refl

module _ (api : Api) (strings : (xs : List ℕ) → api.to_string (Value.string xs) ≡ some xs)
    (fraction enomem : ℕ) (key : List ℕ) (keys : Bytes key) (four : length key ≡ 4) {S : Type 0}
    (s : S) where
  l_xor_apply-done :
      (xs : List ℕ)
      → l_xor_apply api fraction enomem false
          (Value.string xs)
          (Value.table (integers key) Fields.end)
          s
        ≡ done (Value.string (xor_from key 0 xs)) s
  unfolding l_xor_apply
  l_xor_apply-done xs =
      let w : (length_items (integers key) == 4) ≡ true =
        ground (arith, length_items-integers key) in
      rw (checkstring, strings xs, w, key_bytes-integers fraction key s keys) refl

  -- With a key of four bytes and memory for the output, `apply` on its own output gives the bytes of the
  -- first string back, if Lua gives the bytes of a string as they are.
  pub l_xor_apply-twice :
      (bs : List ℕ)
      → Bytes bs
      → (l_xor_apply api fraction enomem false
              (Value.string bs)
              (Value.table (integers key) Fields.end)
            >>= λ out.
                l_xor_apply api fraction enomem false out (Value.table (integers key) Fields.end))
          s
        ≡ done (Value.string bs) s
  l_xor_apply-twice bs bytes =
      rw
        (
          l_xor_apply-done bs,
          l_xor_apply-done (xor_from key 0 bs),
          xor_from-twice key 0 bs keys bytes,
        )
        refl
