-- ===== src/Xor.antt =====
-- xor/lua_xor.c: a string and a repeated key of four bytes.
pub mod Bytes
pub mod Twice
pub mod Tests
use Prim.Native.Nat.{bit_xor}
use flualibs.Common.{
  ℕ, zero, suc, ◌%◌, Bool, true, false, Option, none, some, String, List, [], ◌∷◌, ltb, ◌==◌,
  if◌then◌else◌, get_elem?,
}
use flualibs.Common.Int.{ℤ, pos, negsuc}
use flualibs.Lua.{Value, Items, last, item, length_items}
use flualibs.Lua.Run.{
  Cmd, arg_error, error, pure, raise, undefined, argcheck, Api, checkstring, ◌>>=◌, ◌>>◌,
}
use flualibs.Utils.{fatal}

-- What the C compiler does on a number without an integer value is a parameter, and a number beyond a
-- byte is undefined.
abbrev pub byte_of_integer : {S : Type 0} → ℤ → Cmd S ℕ
byte_of_integer (pos n) = if ltb n 256 then pure n else undefined
byte_of_integer (negsuc n) = undefined

-- One element of the key.
abbrev pub key_byte : {S : Type 0} → ℕ → Value → Cmd S ℕ
key_byte fraction (Value.integer n) = byte_of_integer n
key_byte fraction (Value.float (some n)) = byte_of_integer n
key_byte fraction (Value.float none) = pure fraction
key_byte fraction v = raise (error "`key' is not a number")

-- The loop that reads the key.
unfoldable pub key_bytes : {S : Type 0} → ℕ → Items → Cmd S (List ℕ)
key_bytes fraction last = pure []
key_bytes fraction (item v vs) = do
  k ← key_byte fraction v
  ks ← key_bytes fraction vs
  pure (k ∷ ks)

abbrev pub key_at : List ℕ → ℕ → ℕ
key_at key i = elim (get_elem? key i) [ none ↦ 0 | some k ↦ k ]

-- The loop that writes the output, from the byte `i` on.
unfoldable pub xor_from : List ℕ → ℕ → List ℕ → List ℕ
xor_from key i [] = []
xor_from key i (b ∷ bs) = bit_xor b (key_at key (i % 4)) ∷ xor_from key (suc i) bs

abbrev checktable : {S : Type 0} → Value → Cmd S Items
checktable (Value.table vs fs) = pure vs
checktable v = raise (arg_error 2 "table expected")

-- `full` says whether the allocation of the output fails.
unfoldable pub l_xor_apply :
    {S : Type 0} → Api → (fraction enomem : ℕ) → (full : Bool) → (input key : Value) → Cmd S Value
unfolding key_bytes xor_from
l_xor_apply api fraction enomem full input key = do
  bs ← checkstring api 1 input
  vs ← checktable key
  argcheck (length_items vs == 4) 2 "`key' with length 4 expected"
  ks ← key_bytes fraction vs
  if full then fatal "malloc" enomem else pure (Value.string (xor_from ks 0 bs))
