-- ===== src/Sys/Socket/Address.antt =====
-- The addresses of sys/socket/lua_socket.h, from tables and back.
use flualibs.Common.{
  ℕ, zero, suc, ◌+◌, ◌-◌, ◌%◌, ◌^◌, ◌≤◌, ◌<◌, ◌≡◌, refl, ap, arith, none, some, List, [], ◌∷◌, ◌++◌,
  length, replicate, length-append, ltb, false,
}
use flualibs.Common.Int.{ℤ, pos, negsuc, to_word}
use flualibs.Lua.{Value, Items, Fields, getfield}
use flualibs.Lua.Run.{done, fault, Api}
use flualibs.Lua.Stack.{take-append}
use flualibs.Sys.Socket.{Sockaddr, room, copied, address_data, address_table, pushaddr, checkaddr}

copied-replicate :
    (bs : List ℕ) (n : ℕ)
    → length bs ≤ n
    → copied bs (replicate n 0) ≡ some (bs ++ replicate (n - length bs) 0)
copied-replicate [] n h = ap (λ k. some (replicate k 0)) (omega arith)
copied-replicate (b ∷ bs) zero h = elim h [ ]
copied-replicate (b ∷ bs) (suc n) h =
    rw (copied-replicate bs n (omega arith))
      (ap (λ k. some (b ∷ bs ++ replicate k 0)) (omega arith))

copied-none : (bs : List ℕ) (n : ℕ) → n < length bs → copied bs (replicate n 0) ≡ none
copied-none [] n h = elim h [ ]
copied-none (b ∷ bs) zero h = refl
copied-none (b ∷ bs) (suc n) h = rw (copied-none bs n (omega arith)) refl

word_twice : (n : ℤ) → to_word 8 (pos (to_word 8 n)) ≡ to_word 8 n
word_twice (pos n) = omega arith
word_twice (negsuc n) = omega arith

-- The address of a family with these bytes of data.
abbrev pub padded : ℕ → List ℕ → Sockaddr
padded family bs = record {
  len = (length bs + 2) % 2 ^ 8;
  family = family;
  area = bs ++ replicate (room - length bs) 0;
}

module _ {S : Type 0} (api : Api) (idx : ℕ) (vs : Items) (fs : Fields) (s : S) {n : ℤ} {bs : List ℕ}
    (family : getfield fs "family" ≡ Value.integer n)
    (given : api.to_string (getfield fs "data") ≡ some bs) where
  checkaddr-padded :
      length bs ≤ room → checkaddr api idx (Value.table vs fs) s ≡ done (padded (to_word 8 n) bs) s
  unfolding checkaddr
  checkaddr-padded h = rw (family, address_data, given, copied-replicate bs room h) refl

  -- A table whose family is an integer and whose data is a string gives an address exactly when
  -- the data has at most 126 bytes: the address has the low 8 bits of the family, and the data
  -- with zeros up to 126 bytes. With more data, checkaddr writes behind the end of the structure.
  pub checkaddr-fits :
      (length bs ≤ room
        → checkaddr api idx (Value.table vs fs) s ≡ done (padded (to_word 8 n) bs) s)
      × (room < length bs → checkaddr api idx (Value.table vs fs) s ≡ fault)
  unfolding checkaddr
  checkaddr-fits =
      (checkaddr-padded, λ h. rw (family, address_data, given, copied-none bs room h) refl)

pushaddr-padded :
    {S : Type 0} (family : ℕ) (bs : List ℕ) (s : S)
    → length bs ≤ room
    → pushaddr (padded family bs) s ≡ done (address_table family bs) s
unfolding pushaddr
pushaddr-padded family bs s h =
    let small : (length bs + 2) % 2 ^ 8 ≡ length bs + 2 = omega arith in
    let lo : ltb (length bs + 2) 2 ≡ false = ground arith in
    let size : length bs + 2 - 2 ≡ length bs = omega arith in
    let hi : ltb (length (bs ++ replicate (room - length bs) 0)) (length bs) ≡ false =
      ground (arith, length-append bs (replicate (room - length bs) 0)) in
    rw (small, lo, size, hi, take-append bs (replicate (room - length bs) 0)) refl

-- A table with an integer as family and at most 126 bytes of data is an address that pushaddr gives
-- back as the table of the low 8 bits of the family and the same data; and that table is the same
-- address again.
pub pushaddr-checkaddr :
    {S : Type 0} (api : Api) (idx : ℕ) (vs : Items) (fs : Fields) (s : S) {n : ℤ} {bs : List ℕ}
    → getfield fs "family" ≡ Value.integer n
    → api.to_string (getfield fs "data") ≡ some bs
    → api.to_string (Value.string bs) ≡ some bs
    → length bs ≤ room
    → (a : Sockaddr) × (checkaddr api idx (Value.table vs fs) s ≡ done a s)
      × (pushaddr a s ≡ done (address_table (to_word 8 n) bs) s)
      × (checkaddr api idx (address_table (to_word 8 n) bs) s ≡ done a s)
pushaddr-checkaddr api idx vs fs s {n = n} {bs = bs} family given plain h = (
  padded (to_word 8 n) bs,
  checkaddr-padded api idx vs fs s family given h,
  pushaddr-padded (to_word 8 n) bs s h,
  rw (checkaddr-padded api idx Items.last _ s {n = pos (to_word 8 n)} refl plain h)
      (ap (λ f. done (padded f bs) s) (word_twice n)),
)
