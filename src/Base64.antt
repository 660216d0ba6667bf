-- ===== src/Base64.antt =====
-- b64/lua_b64.c: the coding is that of libc, and the buffers are the module's.
pub mod Round
pub mod Tests
use flualibs.Common.{
  ℕ, ◌+◌, ◌*◌, ◌/◌, ◌%◌, ◌^◌, Bool, false, List, [], ◌∷◌, length, ◌==◌, leb, if◌then◌else◌,
}
use flualibs.Common.Int.{ℤ, pos, negsuc}
use flualibs.Lua.{Value, Store}
use flualibs.Lua.Stack.{take}
use flualibs.Lua.Run.{Cmd, aborted, pure, undefined, Api, checkstring, ◌>>=◌, ◌>>◌}
use flualibs.Utils.{fail, fatal}
use flualibs.Heap.{alloc, free}

-- A block of memory is its size.
abbrev pub Buffers : Type 0
Buffers = Store ℕ

-- `datalen + 2` to round up, and one for the NUL; the product is a `size_t`.
abbrev pub encoded_size : ℕ → ℕ
encoded_size datalen = (4 * (datalen + 2) % 2 ^ 64) / 3 + 1

abbrev pub decoded_size : ℕ → ℕ
decoded_size enclen = (3 * enclen % 2 ^ 64) / 4

-- A comparison with -1.
abbrev is_error : ℤ → Bool
is_error (pos n) = false
is_error (negsuc n) = n == 0

-- The bytes that `lua_pushlstring(L, buf, len)` reads of a buffer in which `bs` were written: it takes an
-- `int` as a `size_t`, and reading what was not written is undefined.
abbrev pub pushlstring : List ℕ → ℤ → Cmd Buffers (List Value)
pushlstring bs (pos len) =
    if leb len (length bs) then pure (Value.string (take len bs) ∷ []) else undefined
pushlstring bs (negsuc n) = undefined

-- `ntop` and `pton` are `b64_ntop` and `b64_pton`, with the size of the buffer: the `int` that they return,
-- and what they write, without the NUL.
module _ (api : Api) (oom : ℕ → Bool) (enomem einval : ℕ)
    (ntop pton : List ℕ → ℕ → ℤ × List ℕ) where
  -- The result -1 ends the program.
  abbrev pub written : (buf : ℕ) → ℤ × List ℕ → Cmd Buffers (List Value)
  written buf (len, cs) =
      if is_error len then (λ s. aborted) else (do vs ← pushlstring cs len; free buf; pure vs)

  unfoldable pub l_b64_encode : Value → Cmd Buffers (List Value)
  l_b64_encode v = do
    data_bytes ← checkstring api 1 v
    buf ← alloc oom (encoded_size (length data_bytes))
    if buf == 0
        then fatal "malloc" enomem
        else written buf (ntop data_bytes (encoded_size (length data_bytes)))

  abbrev pub read_back : (buf : ℕ) → ℤ × List ℕ → Cmd Buffers (List Value)
  read_back buf (len, bs) =
      if is_error len
      then (do free buf; pure (fail api einval))
      else (do vs ← pushlstring bs len; free buf; pure vs)

  unfoldable pub l_b64_decode : Value → Cmd Buffers (List Value)
  l_b64_decode v = do
    encoded ← checkstring api 1 v
    buf ← alloc oom (decoded_size (length encoded))
    if buf == 0
        then fatal "malloc" enomem
        else read_back buf (pton encoded (decoded_size (length encoded)))
