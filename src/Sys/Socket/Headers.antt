-- ===== src/Sys/Socket/Headers.antt =====
-- `get_hdtr` of sys/socket/lua_socket.c: the arrays it makes of a table, or why it refuses the table.
use flualibs.Common.{ℕ, ◌≡◌, refl, ap, Bool, true, [], ◌∷◌, ◌++◌}
use mathlib.Core.List.{append_assoc}
use flualibs.Lua.{Items, Fields, getfield, length_items}
use flualibs.Lua.Run.{Run, LuaError, pure, done, raised}
use flualibs.Heap.{free}
use flualibs.Sys.{Memory}
use flualibs.Sys.Socket.Sendfile.{Stack, Hdtr, get_array, get_hdtr}
use flualibs.Sys.Keeps.{Fresh, SameCells}
use flualibs.Sys.Socket.Filling.{all_strings, pushed, copies, elements_of}
use flualibs.Sys.Socket.Arrays.{
  Refusal, NewArray, NewArray-Fresh, free-NewArray, got, refused, get_array-GotArray,
}

-- The memory with the arrays of both fields, which have the strings of `hs` and of `ts`.
pub record Holds (s : Memory) (hs ts : Items) (h : Hdtr) (t : Memory) : Type 0 where
  pub between : Memory
  pub first : NewArray s (copies hs) h.headers between
  pub second : NewArray between (copies ts) h.trailers t

abbrev pub headers_of : Fields → Items
headers_of fs = elements_of (getfield fs "headers")

abbrev pub trailers_of : Fields → Items
trailers_of fs = elements_of (getfield fs "trailers")

-- The stack after `get_hdtr`: each field, and each of its values twice.
abbrev pub stack_of : Fields → Stack → Stack
stack_of fs stack =
    stack
    ++ getfield fs "headers" ∷ pushed (headers_of fs)
    ++ getfield fs "trailers" ∷ pushed (trailers_of fs)

-- Why the table is refused, with the error: a header or a trailer is no string, or there is no memory.
pub data Refused (oom : ℕ → Bool) (enomem : ℕ) (fs : Fields) : LuaError → Type 0 where
  in_headers :
      {e : LuaError}
      → Refusal oom enomem "headers must be strings" (getfield fs "headers") e
      → Refused oom enomem fs e
  in_trailers :
      {e : LuaError}
      → Refusal oom enomem "trailers must be strings" (getfield fs "trailers") e
      → Refused oom enomem fs e

-- The outcomes of `get_hdtr`: the arrays with all headers and trailers, which are on the stack too, or an
-- error with no memory kept.
pub data GotHdtr (oom : ℕ → Bool) (enomem : ℕ) (s : Memory) (fs : Fields) (stack : Stack)
    (r : Run Memory (Hdtr × Stack)) : Type 0 where
  got_hdtr :
      (h : Hdtr) (t : Memory)
      → Holds s (headers_of fs) (trailers_of fs) h t
      → all_strings (headers_of fs) ≡ true
      → all_strings (trailers_of fs) ≡ true
      → r ≡ done (h, stack_of fs stack) t
      → GotHdtr oom enomem s fs stack r
  refused_hdtr :
      (e : LuaError) (t : Memory)
      → Refused oom enomem fs e
      → SameCells s t
      → r ≡ raised e t
      → GotHdtr oom enomem s fs stack r

module _ (oom : ℕ → Bool) (enomem : ℕ) where
  headers-GotHdtr :
      (fs : Fields) (stack : Stack) (s t : Memory) (iov : ℕ)
      → Fresh s
      → NewArray s (copies (headers_of fs)) iov t
      → all_strings (headers_of fs) ≡ true
      → get_array oom enomem
          (pure tt)
          "headers must be strings"
          (getfield fs "headers")
          (stack ++ getfield fs "headers" ∷ [])
          s
        ≡ done
            (
              iov,
              length_items (headers_of fs),
              (stack ++ getfield fs "headers" ∷ []) ++ pushed (headers_of fs),
            )
            t
      → GotHdtr oom enomem s fs stack (get_hdtr oom enomem fs stack s)
  unfolding get_hdtr
  headers-GotHdtr fs stack s t iov f new all eq =
      let hs = getfield fs "headers" in
      let ts = getfield fs "trailers" in
      elim (get_array-GotArray oom enomem (free iov) "trailers must be strings" ts
        (((stack ++ hs ∷ []) ++ pushed (headers_of fs)) ++ ts ∷ []) (NewArray-Fresh f new)) [
          | refused e u why same eq' ↦
              let (v, freed, kept) = free-NewArray f u new same in
              refused_hdtr e v (in_trailers why) kept (rw (eq, eq', freed) refl)
          | got iov' u new' all' eq' ↦
              let h : Hdtr = record {
                headers = iov;
                hdr_cnt = length_items (headers_of fs);
                trailers = iov';
                trl_cnt = length_items (trailers_of fs);
              } in
              got_hdtr h u (record { between = t; first = new; second = new' }) all all'
                (rw (eq, eq') (ap (λ z. done (h, z) u) (simp append_assoc)))
        ]

  -- Where fresh addresses are unused, get_hdtr ends: with the arrays of the headers and of the
  -- trailers, or with an error after which no memory is kept.
  pub get_hdtr-GotHdtr :
      (fs : Fields) (stack : Stack) {s : Memory}
      → Fresh s
      → GotHdtr oom enomem s fs stack (get_hdtr oom enomem fs stack s)
  unfolding get_hdtr
  get_hdtr-GotHdtr fs stack {s} f =
      let hs = getfield fs "headers" in
      elim (get_array-GotArray oom enomem (pure tt) "headers must be strings" hs (stack ++ hs ∷ [])
        f) [
          | refused e t why same eq ↦ refused_hdtr e t (in_headers why) same (rw eq refl)
          | got iov t new all eq ↦ headers-GotHdtr fs stack s t iov f new all eq
        ]
