-- ===== src/Sys/Socket/Sending.antt =====
-- What `l_sendfile` of sys/socket/lua_socket.c asks of the kernel, and what it does with its memory and its
-- stack.
use flualibs.Common.{ℕ, ◌≡◌, ◌≢◌, refl, Bool, none, some, List, [], ◌∷◌, Option}
use flualibs.Common.Int.{ℤ, pos, to_word, to_int}
use flualibs.Lua.{Value, value_at, Items, Fields, getfield}
use flualibs.Lua.Run.{
  Run, arg_error, LuaError, pure, done, raised, Api, optinteger, checkinteger, ◌>>=◌,
}
use flualibs.Utils.{checkfd}
use flualibs.Sys.{strings, Memory, answered}
use flualibs.Sys.Socket.Sendfile.{Stack, get_hdtr, Sendfile, sendfile_with, l_sendfile}
use flualibs.Sys.Keeps.{Fresh}
use flualibs.Sys.Socket.Filling.{copies}
use flualibs.Sys.Socket.Headers.{got_hdtr, refused_hdtr, get_hdtr-GotHdtr}

-- The array that is read has the strings: nothing, or an array.
data Readable (t : Memory) (ss : List (Option (List ℕ))) (iov : ℕ) : Type 0 where
  nothing : iov ≡ 0 → ss ≡ [] → Readable t ss iov
  elements : iov ≢ 0 → t.cell iov ≡ some (strings ss) → Readable t ss iov

-- The call ends with this memory, whether it returns or raises.
pub data EndsAt (t : Memory) (r : Run Memory (List Value)) : Type 0 where
  returns : (vs : List Value) → r ≡ done vs t → EndsAt t r
  raises : (e : LuaError) → r ≡ raised e t → EndsAt t r

-- The rest of the call once the arrays are made: the flags and the number of pages are read from the
-- stack as it is then, and the kernel is asked with the headers and the trailers.
abbrev pub asked :
    Api
    → Sendfile
    → (fd s offset : ℤ) → ℕ
    → Items
    → Items
    → Stack
    → Memory
    → Run Memory (List Value)
asked api sendfile fd s offset nbytes hs ts stack = do
  flags ← optinteger api 6 (value_at 6 stack) (pos 0)
  readahead ← optinteger api 7 (value_at 7 stack) (pos 0)
  answered api
      (sendfile fd s offset nbytes (some (copies hs, copies ts)) (to_int readahead) (to_int flags))
      (λ n. pure (Value.integer n ∷ []))

-- A call with a table as fifth argument, whose first four are good.
module _ (oom : ℕ → Bool) (enomem : ℕ) (api : Api) (sendfile : Sendfile) (vs : Items) (fs : Fields)
    {m : Memory} (f : Fresh m) (a b c d : Value) {fd s offset n : ℤ}
    (first : checkfd api 1 a m ≡ done fd m) (second : checkfd api 2 b m ≡ done s m)
    (third : checkinteger api 3 c m ≡ done offset m)
    (fourth : checkinteger api 4 d m ≡ done n m) where
  abbrev arguments : Stack → Stack
  arguments rest = a ∷ b ∷ c ∷ d ∷ Value.table vs fs ∷ rest

  l_sendfile-with :
      (rest : Stack)
      → l_sendfile oom enomem api sendfile (arguments rest) m
        ≡ sendfile_with oom enomem api sendfile fd s offset
            (to_word 64 n)
            (Value.table vs fs)
            (arguments rest)
            m
  unfolding l_sendfile
  l_sendfile-with rest = rw (first, second, checkinteger, third, fourth) refl

  l_sendfile-refused :
      (rest : Stack) (e : LuaError) (t : Memory)
      → get_hdtr oom enomem fs (arguments rest) m ≡ raised e t
      → l_sendfile oom enomem api sendfile (arguments rest) m ≡ raised e t
  unfolding sendfile_with
  l_sendfile-refused rest e t eq = rw (l_sendfile-with rest, eq) refl

  -- Where the first four arguments are good, the fifth and last is a table with a table of headers,
  -- which is no integer, and fresh addresses are unused, sendfile raises an error: the headers that
  -- get_hdtr has pushed are read as the flags.
  pub l_sendfile-headers :
      {hs : Items} {gs : Fields}
      → getfield fs "headers" ≡ Value.table hs gs
      → api.to_integer (Value.table hs gs) ≡ none
      → (e : LuaError) × (t : Memory) × (l_sendfile oom enomem api sendfile (arguments []) m
          ≡ raised e t)
  unfolding sendfile_with
  l_sendfile-headers {hs} {gs} headers none_of =
      elim (get_hdtr-GotHdtr oom enomem fs (arguments []) f) [
        | refused_hdtr e t why same eq ↦ (e, t, l_sendfile-refused [] e t eq)
        | got_hdtr h t k all all' eq ↦ (
          arg_error 6 "number expected",
          t,
          rw (l_sendfile-with [], eq, headers, checkinteger, none_of) refl,
        )
      ]
