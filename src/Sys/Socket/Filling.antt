-- ===== src/Sys/Socket/Filling.antt =====
-- The loop of `get_hdtr` of sys/socket/lua_socket.c that fills an array, and what it pushes.
use flualibs.Common.{
  ℕ, zero, suc, ◌+◌, ◌≤◌, ◌<◌, ◌≡◌, ◌≢◌, refl, ap, ◌∙◌, arith, Bool, true, false, Option, none,
  some, List, [], ◌∷◌, ◌++◌, length, set, replicate, length-set, length-append, update, update_self,
  update_same, update-update, if◌then◌else◌, ltb,
}
use mathlib.Core.List.{append-nil, append_assoc}
use flualibs.Lua.{Value, Items, last, item, length_items}
use flualibs.Lua.Run.{Cmd, done}
use flualibs.Heap.Cells.{load-done, store-done}
use flualibs.Sys.{strings, Memory, put_string}
use flualibs.Sys.Socket.Sendfile.{Stack, fill_strings}

abbrev pub all_strings : Items → Bool
all_strings last = true
all_strings (item (Value.string bs) vs) = all_strings vs
all_strings (item v vs) = false

-- What the loop pushes.
abbrev pub pushed : Items → Stack
pushed last = []
pushed (item v vs) = v ∷ v ∷ pushed vs

-- The strings that the array has for the values.
abbrev pub copies : Items → List (Option (List ℕ))
copies last = []
copies (item (Value.string bs) vs) = some bs ∷ copies vs
copies (item v vs) = none ∷ copies vs

-- The elements of a field: those of a table.
abbrev pub elements_of : Value → Items
elements_of (Value.table vs fs) = vs
elements_of v = last

-- The memory with an array at an address.
abbrev pub with_array : Memory → ℕ → List (Option (List ℕ)) → Memory
with_array s iov ss = record s { cell = update s.cell iov (some (strings ss)) }

pub with_array-same :
    (s : Memory) (iov : ℕ) (ss : List (Option (List ℕ)))
    → s.cell iov ≡ some (strings ss)
    → with_array s iov ss ≡ s
with_array-same s iov ss at = ap (λ c. record s { cell = c }) (update_same s.cell iov at)

pub with_array-twice :
    (s : Memory) (iov : ℕ) (ss ss' : List (Option (List ℕ)))
    → with_array (with_array s iov ss) iov ss' ≡ with_array s iov ss'
with_array-twice s iov ss ss' =
    ap (λ c. record s { cell = c })
      (update-update s.cell iov (some (strings ss)) (some (strings ss')))

pub put_string-done :
    (iov i : ℕ) (bs : List ℕ) (s : Memory) {ss : List (Option (List ℕ))}
    → iov ≢ 0
    → s.cell iov ≡ some (strings ss)
    → i < length ss
    → put_string iov i bs s ≡ done tt (with_array s iov (set ss i (some bs)))
unfolding put_string
put_string-done iov i bs s {ss} ne at h =
    let inside : ltb i (length ss) ≡ true = ground arith in
    rw (load-done iov s ne at, inside) (store-done iov s ne at (strings (set ss i (some bs))))

-- The loop fills the array, or meets a value that is no string and refuses; it never writes behind
-- the end of the array.
pub fill_strings-eq :
    (refuse : Cmd Memory Stack) (iov i : ℕ) (vs : Items) (stack : Stack) (s : Memory)
    (ss : List (Option (List ℕ)))
    → iov ≢ 0
    → s.cell iov ≡ some (strings ss)
    → i + length_items vs ≤ length ss
    → (ss' : List (Option (List ℕ))) × (fill_strings refuse iov i vs stack s ≡ (
        if all_strings vs
        then done (stack ++ pushed vs) (with_array s iov ss')
        else refuse (with_array s iov ss')))
unfolding fill_strings
fill_strings-eq refuse iov i last stack s ss ne at h =
    (ss, rw (with_array-same s iov ss at, append-nil) refl)
fill_strings-eq refuse iov i (item (Value.string bs) vs) stack s ss ne at h =
    let ss' = set ss i (some bs) in
    let n : length ss' ≡ length ss = length-set ss i (some bs) in
    let (end, filled) =
      fill_strings-eq refuse iov (i + 1) vs (stack ++ Value.string bs ∷ Value.string bs ∷ [])
        (with_array s iov ss') ss' ne (update_self s.cell iov _) (omega arith) in
    (
      end,
      rw (put_string-done iov i bs s ne at (omega arith))
          (filled ∙ rw (with_array-twice s iov ss' end, append_assoc) refl),
    )
fill_strings-eq refuse iov i (item Value.nil vs) stack s ss ne at h =
    (ss, rw (with_array-same s iov ss at) refl)
fill_strings-eq refuse iov i (item v vs) stack s ss ne at h =
    (ss, rw (with_array-same s iov ss at) refl)

set-append :
    (pre rest : List (Option (List ℕ))) (i : ℕ) (x y : Option (List ℕ))
    → length pre ≡ i
    → set (pre ++ x ∷ rest) i y ≡ (pre ++ y ∷ []) ++ rest
set-append [] rest zero x y e = refl
set-append [] rest (suc i) x y e = absurd (omega (arith, e))
set-append (z ∷ pre) rest zero x y e = absurd (omega (arith, e))
set-append (z ∷ pre) rest (suc i) x y e =
    ap (λ ws. z ∷ ws) (set-append pre rest i x y (omega (arith, e)))

-- On strings alone the loop puts all of them into the array.
pub fill_strings-copies :
    (refuse : Cmd Memory Stack) (iov i : ℕ) (vs : Items) (stack : Stack) (s : Memory)
    (pre : List (Option (List ℕ)))
    → iov ≢ 0
    → length pre ≡ i
    → s.cell iov ≡ some (strings (pre ++ replicate (length_items vs) none))
    → all_strings vs ≡ true
    → fill_strings refuse iov i vs stack s
      ≡ done (stack ++ pushed vs) (with_array s iov (pre ++ copies vs))
unfolding fill_strings
fill_strings-copies refuse iov i last stack s pre ne n at all =
    rw (with_array-same s iov (pre ++ []) at, append-nil stack) refl
fill_strings-copies refuse iov i (item (Value.string bs) vs) stack s pre ne n at all =
    let rest = replicate {A = Option (List ℕ)} (length_items vs) none in
    let here : set (pre ++ none ∷ rest) i (some bs) ≡ (pre ++ some bs ∷ []) ++ rest =
      set-append pre rest i none (some bs) n in
    let inside : i < length (pre ++ none ∷ rest) =
      omega (arith, n, length-append pre (none ∷ rest)) in
    let more =
      fill_strings-copies refuse iov (i + 1) vs (stack ++ Value.string bs ∷ Value.string bs ∷ [])
        (with_array s iov ((pre ++ some bs ∷ []) ++ rest)) (pre ++ some bs ∷ []) ne
        (omega (arith, n, length-append pre (some bs ∷ []))) (update_self s.cell iov _) all in
    rw (put_string-done iov i bs s ne at inside, here)
      (more
        ∙ rw
            (with_array-twice s iov ((pre ++ some bs ∷ []) ++ rest)
              ((pre ++ some bs ∷ []) ++ copies vs))
            (simp append_assoc))
fill_strings-copies refuse iov i (item Value.nil vs) stack s pre ne n at all = absurd (ground arith)
fill_strings-copies refuse iov i (item v vs) stack s pre ne n at all = absurd (ground arith)
