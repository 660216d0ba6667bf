-- ===== src/Sys/Uio.antt =====
-- sys/uio/lua_uio.c and sys/uio/lua_uio.h: reads into several buffers, and writes from several
-- strings.
pub mod Buffers
pub mod Filling
pub mod Reading
pub mod Writing
pub mod Tests
use flualibs.Common.{
  ℕ, zero, suc, ◌+◌, Bool, Option, none, some, List, [], ◌∷◌, ◌==◌, if◌then◌else◌, ltb, length,
  replicate, set,
}
use flualibs.Common.Int.{ℤ, pos, to_word}
use flualibs.Lua.{Value, Items, last, item, end, length_items}
use flualibs.Lua.Run.{Cmd, arg_error, pure, raise, undefined, Api, checkinteger, ◌>>=◌, ◌>>◌}
use flualibs.Utils.{fail, fatal, checkfd}
use flualibs.Heap.{alloc, load, store, free}
use flualibs.Sys.{
  Answer, result, failed, bytes, iovecs, strings, Memory, as_bytes, as_iovecs, as_strings,
  fill_buffer, put_string,
}

-- The kernel reads for a descriptor, at an offset if there is one, into buffers of some lengths:
-- the bytes for each buffer, and their number. It writes the bytes of strings.
pub record Kernel : Type 0 where
  pub readv : ℤ → Option ℤ → List ℕ → Answer (List (List ℕ) × ℤ)
  pub writev : ℤ → Option ℤ → List (Option (List ℕ)) → Answer ℤ

-- The bases of the first `n` elements are freed.
unfoldable pub free_buffers : ℕ → List (ℕ × ℕ) → Cmd Memory (Unit {0})
free_buffers zero vs = pure tt
free_buffers (suc n) [] = undefined
free_buffers (suc n) ((base, len) ∷ vs) = do free base; free_buffers n vs

unfoldable pub freeriovecs : (iovs n : ℕ) → Cmd Memory (Unit {0})
unfolding free_buffers
freeriovecs iovs n = do o ← load iovs; vs ← as_iovecs o; free_buffers n vs; free iovs

-- `iovs[i]` gets a length and a base.
unfoldable pub put_iovec : (iovs i : ℕ) → ℕ × ℕ → Cmd Memory (Unit {0})
put_iovec iovs i v = do
  o ← load iovs
  vs ← as_iovecs o
  if ltb i (length vs) then store iovs (iovecs (set vs i v)) else undefined

-- The loop of `checkwiovecs` from element `i` on.
unfoldable pub fill_wiovecs : (idx iovs i : ℕ) → Items → Cmd Memory (Unit {0})
fill_wiovecs idx iovs i last = pure tt
fill_wiovecs idx iovs i (item (Value.string bs) vs) = do
  put_string iovs i bs
  fill_wiovecs idx iovs (i + 1) vs
fill_wiovecs idx iovs i (item v vs) = free iovs >> raise (arg_error idx "expected strings")

module _ (oom : ℕ → Bool) (enomem : ℕ) where
  -- The loop of `checkriovecs` from element `i` on.
  unfoldable pub fill_riovecs : (idx iovs n i : ℕ) → Items → Cmd Memory (Unit {0})
  unfolding put_iovec
  fill_riovecs idx iovs n i last = pure tt
  fill_riovecs idx iovs n i (item (Value.integer len) vs) = do
    base ← alloc oom (bytes (replicate (to_word 64 len) none))
    put_iovec iovs i (base, to_word 64 len)
    if base == 0
        then freeriovecs iovs n >> fatal "malloc" enomem
        else fill_riovecs idx iovs n (i + 1) vs
  fill_riovecs idx iovs n i (item v vs) =
      freeriovecs iovs n >> raise (arg_error idx "expected iovec buffer lengths")

  -- The address and the number of elements.
  unfoldable pub checkriovecs : ℕ → Value → Cmd Memory (ℕ × ℕ)
  unfolding fill_riovecs
  checkriovecs idx (Value.table vs fs) = do
    iovs ← alloc oom (iovecs (replicate (length_items vs) (0, 0)))
    if iovs == 0
        then fatal "calloc" enomem
        else do fill_riovecs idx iovs (length_items vs) 0 vs; pure (iovs, length_items vs)
  checkriovecs idx v = raise (arg_error idx "table expected")

  unfoldable pub checkwiovecs : ℕ → Value → Cmd Memory ℕ
  unfolding fill_wiovecs
  checkwiovecs idx (Value.table vs fs) = do
    iovs ← alloc oom (strings (replicate (length_items vs) none))
    if iovs == 0 then fatal "calloc" enomem else do fill_wiovecs idx iovs 0 vs; pure iovs
  checkwiovecs idx v = raise (arg_error idx "table expected")

-- What a string is made from: the bytes of a buffer, also those that were never written, which are
-- what the memory held before (`stale`, by the address and the place).
abbrev pub bytes_from : (stale : ℕ → ℕ) → ℕ → List (Option ℕ) → List ℕ
bytes_from stale i [] = []
bytes_from stale i (none ∷ bs) = stale i ∷ bytes_from stale (i + 1) bs
bytes_from stale i (some b ∷ bs) = b ∷ bytes_from stale (i + 1) bs

module _ (stale : ℕ → ℕ → ℕ) where
  unfoldable pub push_buffers : List (ℕ × ℕ) → Cmd Memory Items
  push_buffers [] = pure last
  push_buffers ((base, len) ∷ vs) = do
    o ← load base
    bs ← as_bytes o
    rest ← push_buffers vs
    pure (item (Value.string (bytes_from (stale base) 0 bs)) rest)

  unfoldable pub pushriovecs : (iovs : ℕ) → Cmd Memory Value
  unfolding push_buffers
  pushriovecs iovs = do
    o ← load iovs
    vs ← as_iovecs o
    items ← push_buffers vs
    pure (Value.table items end)

-- The kernel fills in the buffers.
unfoldable pub fill_buffers : List (ℕ × ℕ) → List (List ℕ) → Cmd Memory (Unit {0})
fill_buffers vs [] = pure tt
fill_buffers [] (bs ∷ chunks) = undefined
fill_buffers ((base, len) ∷ vs) (bs ∷ chunks) = do fill_buffer base bs; fill_buffers vs chunks

abbrev pub lengths : List (ℕ × ℕ) → List ℕ
lengths [] = []
lengths ((base, len) ∷ vs) = len ∷ lengths vs

module _ (api : Api) (kernel : Kernel) (oom : ℕ → Bool) (enomem : ℕ) (stale : ℕ → ℕ → ℕ) where
  abbrev pub read_answer :
      (iovs n : ℕ) → List (ℕ × ℕ) → Answer (List (List ℕ) × ℤ) → Cmd Memory (List Value)
  read_answer iovs n vs (failed e) = do freeriovecs iovs n; pure (fail api e)
  read_answer iovs n vs (result (chunks, len)) = do
    fill_buffers vs chunks
    strs ← pushriovecs stale iovs
    freeriovecs iovs n
    pure (strs ∷ Value.integer len ∷ [])

  abbrev pub read_into : ℤ → Option ℤ → ℕ × ℕ → Cmd Memory (List Value)
  read_into fd offset (iovs, n) = do
    o ← load iovs
    vs ← as_iovecs o
    read_answer iovs n vs (kernel.readv fd offset (lengths vs))

  unfoldable pub l_readv : (v w : Value) → Cmd Memory (List Value)
  unfolding checkriovecs freeriovecs pushriovecs fill_buffers
  l_readv v w = do fd ← checkfd api 1 v; iovs ← checkriovecs oom enomem 2 w; read_into fd none iovs

  unfoldable pub l_preadv : (v w off : Value) → Cmd Memory (List Value)
  unfolding checkriovecs freeriovecs pushriovecs fill_buffers
  l_preadv v w off = do
    fd ← checkfd api 1 v
    offset ← checkinteger api 3 off
    iovs ← checkriovecs oom enomem 2 w
    read_into fd (some offset) iovs

  abbrev pub write_answer : ℕ → Answer ℤ → Cmd Memory (List Value)
  write_answer iovs (failed e) = do free iovs; pure (fail api e)
  write_answer iovs (result len) = do free iovs; pure (Value.integer len ∷ [])

  abbrev pub write_from : ℤ → Option ℤ → ℕ → Cmd Memory (List Value)
  write_from fd offset iovs = do
    o ← load iovs
    ss ← as_strings o
    write_answer iovs (kernel.writev fd offset ss)

  unfoldable pub l_writev : (v w : Value) → Cmd Memory (List Value)
  unfolding checkwiovecs
  l_writev v w = do
    fd ← checkfd api 1 v
    iovs ← checkwiovecs oom enomem 2 w
    write_from fd none iovs

  unfoldable pub l_pwritev : (v w off : Value) → Cmd Memory (List Value)
  unfolding checkwiovecs
  l_pwritev v w off = do
    fd ← checkfd api 1 v
    offset ← checkinteger api 3 off
    iovs ← checkwiovecs oom enomem 2 w
    write_from fd (some offset) iovs
