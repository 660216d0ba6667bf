-- ===== src/Sys/Socket/Answers.antt =====
-- What the callers of sys/socket/lua_socket.c learn from an answer, and the memory of an option.
use flualibs.Common.{
  ℕ, suc, ◌+◌, ◌≤◌, ◌≡◌, ◌≢◌, inl, inr, refl, ap, sym, ◌∙◌, arith, Option, none, some, List, [],
  ◌∷◌, ◌==◌, length, replicate, length-replicate, update, update_self, update-update, Bool-cases,
  ==-ne, Bool,
}
use flualibs.Common.Int.{ℤ, pos, to_word}
use flualibs.Lua.{Value}
use flualibs.Lua.Run.{Cmd, fatal_error, done, pure, checkinteger, Api, ◌>>=◌, ◌>>◌}
use flualibs.Utils.{checkfd, fail}
use flualibs.Heap.{alloc, free}
use flualibs.Heap.Cells.{load-done, store-done, free-done}
use flualibs.Sys.{Answer, result, failed, answered, bytes, Memory, written, fill_buffer}
use flualibs.Sys.Socket.{Sockaddr, pushaddr}
use flualibs.Sys.Socket.Calls.{
  Kernel, asserted, received, optint, checkint, push_option, l_recvfrom, l_getsockopt,
}
use flualibs.Sys.Keeps.{Fresh, SameCells, KeepsCells, returns, raises}

-- An answer of recvfrom without the bytes.
abbrev pub without_bytes : Answer (List ℕ × Sockaddr × ℕ) → Answer (Sockaddr × ℕ)
without_bytes (result (bs, ss, n)) = result (ss, n)
without_bytes (failed e) = failed e

abbrev address_only : Sockaddr × ℕ → Cmd Memory (List Value)
address_only (ss, n) = do asserted (ss.len == n); from ← pushaddr ss; pure (from ∷ [])

received-address_only :
    (api : Api) (x : Answer (List ℕ × Sockaddr × ℕ))
    → answered api x received ≡ answered api (without_bytes x) address_only
received-address_only api (result (bs, ss, n)) = refl
received-address_only api (failed e) = refl

-- Two kernels whose answers to recvfrom differ in the received bytes alone cannot be told apart
-- by l_recvfrom.
pub l_recvfrom-without_bytes :
    (api : Api) (k k' : Kernel) (v size opt : Value) (m : Memory)
    → ((s : ℤ) (n : ℕ) (flags : ℤ)
        → without_bytes (k.recvfrom s n flags) ≡ without_bytes (k'.recvfrom s n flags))
    → l_recvfrom api k v size opt m ≡ l_recvfrom api k' v size opt m
unfolding l_recvfrom
l_recvfrom-without_bytes api k k' v size opt m same =
    let step : (s : ℤ) (n : ℕ) (flags : ℤ)
        → answered api (k.recvfrom s n flags) received
          ≡ answered api (k'.recvfrom s n flags) received =
      λ s n flags.
        received-address_only api (k.recvfrom s n flags)
        ∙ ap (λ x. answered api x address_only) (same s n flags)
        ∙ sym (received-address_only api (k'.recvfrom s n flags)) in
    λ i.
      (checkfd api 1 v >>= λ s. checkinteger api 2 size >>= λ n.
      optint api k 3 opt (pos 0) >>= λ flags. step s (to_word 64 n) flags i)
        m

pub written-some :
    (bs : List ℕ) (area : List (Option ℕ))
    → length bs ≤ length area
    → (area' : List (Option ℕ)) × (written bs area ≡ some area') × (length area' ≡ length area)
unfolding written
written-some [] area h = (area, refl, refl)
written-some (b ∷ bs) [] h = elim h [ ]
written-some (b ∷ bs) (x ∷ area) h =
    let (rest, e, n) = written-some bs area (omega arith) in (some b ∷ rest, rw e refl, ap suc n)

abbrev with_buffer : Memory → List (Option ℕ) → Memory
with_buffer m area = record m { cell = update m.cell m.next (some (bytes area)); next = m.next + 1 }

abbrev without_buffer : Memory → Memory
without_buffer m = record m { cell = update m.cell m.next none; next = m.next + 1 }

module _ (m : Memory) (ne : m.next ≢ 0) (area : List (Option ℕ)) where
  fill_buffer-with_buffer :
      (bs : List ℕ)
      → length bs ≤ length area
      → (area' : List (Option ℕ)) × (fill_buffer m.next bs (with_buffer m area)
          ≡ done tt (with_buffer m area'))
  fill_buffer-with_buffer bs h =
      let (area', e, n) = written-some bs area h in
      let at = update_self m.cell m.next (some (bytes area)) in
      (
        area',
        rw (load-done m.next (with_buffer m area) ne at, e)
            (rw (store-done m.next (with_buffer m area) ne at (bytes area'), update-update) refl),
      )

  free-with_buffer : free m.next (with_buffer m area) ≡ done tt (without_buffer m)
  free-with_buffer =
      rw (free-done m.next (with_buffer m area) ne (update_self m.cell m.next _), update-update)
        refl

without_buffer-SameCells : {m : Memory} → Fresh m → SameCells m (without_buffer m)
without_buffer-SameCells {m} f q = ground (arith, f.unused m.next)

push_option-KeepsCells :
    (api : Api) (k : Kernel) (oom : ℕ → Bool) {m : Memory} (f : Fresh m) (area : List (Option ℕ))
    (x : Answer (List ℕ))
    → ((bs : List ℕ) → x ≡ result bs → length bs ≤ length area)
    → KeepsCells m (push_option api k oom m.next x (with_buffer m area))
push_option-KeepsCells api k oom {m} f area (failed e) fits =
    returns (fail api e) (without_buffer m) (without_buffer-SameCells f)
      (rw (free-with_buffer m f.not_null area) refl)
push_option-KeepsCells api k oom {m} f area (result bs) fits =
    let (area', filled) = fill_buffer-with_buffer m f.not_null area bs (fits bs refl) in
    returns (Value.string bs ∷ []) (without_buffer m) (without_buffer-SameCells f)
      (rw (filled, free-with_buffer m f.not_null area') refl)

-- Where the four arguments are good, fresh addresses are unused and the kernel gives at most as
-- many bytes as it is asked for, getsockopt ends with no memory kept, whether malloc fails, the
-- kernel refuses, or it answers.
pub l_getsockopt-KeepsCells :
    (api : Api) (k : Kernel) (oom : ℕ → Bool) (enomem : ℕ) (a b c d : Value) {m : Memory}
    (f : Fresh m) {s level name n : ℤ}
    → checkfd api 1 a m ≡ done s m
    → checkint api k 2 b m ≡ done level m
    → checkint api k 3 c m ≡ done name m
    → checkinteger api 4 d m ≡ done n m
    → ((s level name : ℤ) (size : ℕ) (bs : List ℕ)
        → k.getsockopt s level name size ≡ result bs
        → length bs ≤ size)
    → KeepsCells m (l_getsockopt api k oom enomem a b c d m)
unfolding l_getsockopt alloc
l_getsockopt-KeepsCells api k oom enomem a b c d {m} f {s} {level} {name} {n} ea eb ec ed fits =
    let size = to_word 32 n in
    elim (Bool-cases (oom m.next)) [
      | inl full ↦
          raises (fatal_error "malloc" enomem) (record m { next = m.next + 1 }) (λ q. refl)
            (rw (ea, eb, ec, ed, full) refl)
      | inr memory ↦
          rw (ea, eb, ec, ed, memory, ==-ne m.next 0 f.not_null)
            (push_option-KeepsCells api k oom f (replicate size none)
              (k.getsockopt s level name size)
              (λ bs e. omega (
                arith,
                fits s level name size bs e,
                length-replicate {0} {A = Option ℕ} size none,
              )))
    ]
