-- ===== src/Sys/Socket/Sendfile.antt =====
-- `get_hdtr` and `l_sendfile` of sys/socket/lua_socket.c. The arguments are the stack of the
-- call, on which `get_hdtr` leaves what it pushes.
use flualibs.Common.{
  ℕ, ◌+◌, Bool, Option, none, some, String, List, [], ◌∷◌, ◌++◌, ◌==◌, if◌then◌else◌, replicate,
}
use flualibs.Common.Int.{ℤ, pos, to_word, to_int}
use flualibs.Lua.{Value, value_at, Items, last, item, Fields, getfield, length_items}
use flualibs.Lua.Run.{Cmd, error, pure, raise, Api, checkinteger, optinteger, ◌>>=◌, ◌>>◌}
use flualibs.Utils.{fatal, checkfd}
use flualibs.Heap.{alloc, load, free}
use flualibs.Sys.{Answer, answered, strings, Memory, as_strings, put_string}

abbrev pub Stack : Type 0
Stack = List Value

-- The headers and the trailers: addresses and numbers of elements.
pub record Hdtr : Type 0 where
  pub headers : ℕ
  pub hdr_cnt : ℕ
  pub trailers : ℕ
  pub trl_cnt : ℕ

-- The loop of `get_hdtr` over an array, from element `i` on: of each string the value and the
-- copy of `luaL_tolstring` are pushed. At a value that is no string, `refuse`.
unfoldable pub fill_strings :
    (refuse : Cmd Memory Stack) → (iov i : ℕ) → Items → Stack → Cmd Memory Stack
fill_strings refuse iov i last stack = pure stack
fill_strings refuse iov i (item (Value.string bs) vs) stack = do
  put_string iov i bs
  fill_strings refuse iov (i + 1) vs (stack ++ Value.string bs ∷ Value.string bs ∷ [])
fill_strings refuse iov i (item v vs) stack = refuse

-- What the kernel sends of the file, with the strings before and behind it.
abbrev pub Sendfile : Type 0
Sendfile =
    (fd s offset : ℤ)
    → (nbytes : ℕ) → Option (List (Option (List ℕ)) × List (Option (List ℕ)))
    → (readahead flags : ℤ) → Answer ℤ

-- The kernel reads an array.
abbrev pub read_array : ℕ → Cmd Memory (List (Option (List ℕ)))
read_array iov = if iov == 0 then pure [] else (do o ← load iov; as_strings o)

module _ (oom : ℕ → Bool) (enomem : ℕ) where
  -- NULL for no elements.
  unfoldable pub new_array : ℕ → Cmd Memory ℕ → Cmd Memory ℕ
  new_array n refuse =
      if n == 0
      then pure 0
      else do iov ← alloc oom (strings (replicate n none)); if iov == 0 then refuse else pure iov

  -- The array of one field: `clean` is what its failures release besides the array.
  unfoldable pub get_array :
      (clean : Cmd Memory (Unit {0})) → String → Value → Stack → Cmd Memory (ℕ × ℕ × Stack)
  unfolding fill_strings new_array
  get_array clean problem (Value.table vs fs) stack = do
    iov ← new_array (length_items vs) (clean >> fatal "malloc" enomem)
    stack' ← fill_strings (free iov >> (clean >> raise (error problem))) iov 0 vs stack
    pure (iov, length_items vs, stack')
  get_array clean problem v stack = pure (0, 0, stack)

  -- The fields of the table at `arg` are pushed and stay on the stack.
  unfoldable pub get_hdtr : Fields → Stack → Cmd Memory (Hdtr × Stack)
  unfolding get_array
  get_hdtr fs stack = do
    let h = getfield fs "headers"
    (headers, hdr_cnt, stack') ← get_array (pure tt) "headers must be strings" h (stack ++ h ∷ [])
    let t = getfield fs "trailers"
    (trailers, trl_cnt, stack'') ←
        get_array (free headers) "trailers must be strings" t (stack' ++ t ∷ [])
    pure (
      record { headers = headers; hdr_cnt = hdr_cnt; trailers = trailers; trl_cnt = trl_cnt },
      stack'',
    )

  module _ (api : Api) (sendfile : Sendfile) where
    abbrev sent : Answer ℤ → Cmd Memory (List Value)
    sent a = answered api a (λ n. pure (Value.integer n ∷ []))

    unfoldable pub sendfile_with :
        (fd s offset : ℤ) → (nbytes : ℕ) → Value → Stack → Cmd Memory (List Value)
    unfolding get_hdtr
    sendfile_with fd s offset nbytes (Value.table vs fs) stack = do
      (hdtr, stack') ← get_hdtr fs stack
      flags ← optinteger api 6 (value_at 6 stack') (pos 0)
      readahead ← optinteger api 7 (value_at 7 stack') (pos 0)
      headers ← read_array hdtr.headers
      trailers ← read_array hdtr.trailers
      sent
          (sendfile fd s offset nbytes (some (headers, trailers)) (to_int readahead) (to_int flags))
    sendfile_with fd s offset nbytes v stack = do
      flags ← optinteger api 5 v (pos 0)
      readahead ← optinteger api 6 (value_at 6 stack) (pos 0)
      sent (sendfile fd s offset nbytes none (to_int readahead) (to_int flags))

    unfoldable pub l_sendfile : Stack → Cmd Memory (List Value)
    unfolding sendfile_with
    l_sendfile stack = do
      fd ← checkfd api 1 (value_at 1 stack)
      s ← checkfd api 2 (value_at 2 stack)
      offset ← checkinteger api 3 (value_at 3 stack)
      nbytes ← checkinteger api 4 (value_at 4 stack)
      sendfile_with fd s offset (to_word 64 nbytes) (value_at 5 stack) stack
