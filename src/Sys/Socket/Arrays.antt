-- ===== src/Sys/Socket/Arrays.antt =====
-- The arrays that `get_hdtr` of sys/socket/lua_socket.c makes: what is allocated and pushed.
use flualibs.Common.{
  ℕ, suc, ◌+◌, ◌≡◌, ◌≢◌, inl, inr, refl, ap, ◌∙◌, arith, Bool, true, false, Option, none, some,
  String, List, [], ◌++◌, replicate, length-replicate, update, update_self, update-update,
  update_other, Bool-cases,
}
use mathlib.Core.List.{append-nil}
use flualibs.Lua.{Value, Items, last, item, Fields, length_items}
use flualibs.Lua.Run.{
  Cmd, ◌>>◌, and_then, fault, aborted, out_of_fuel, raise, Run, LuaError, fatal_error, error, done,
  raised,
}
use flualibs.Heap.{alloc, free}
use flualibs.Sys.{strings, Memory}
use flualibs.Sys.Keeps.{Fresh, SameCells}
use flualibs.Sys.Socket.Sendfile.{Stack, new_array, get_array}
use flualibs.Sys.Socket.Filling.{
  all_strings, pushed, copies, elements_of, with_array, fill_strings-eq, fill_strings-copies,
}

-- The memory with a new array.
abbrev pub grown : Memory → List (Option (List ℕ)) → Memory
grown s ss = record s { cell = update s.cell s.next (some (strings ss)); next = s.next + 1 }

-- The strings of a new array, its address, and the memory with it: NULL for no elements, or new memory.
pub data NewArray (s : Memory) : List (Option (List ℕ)) → ℕ → Memory → Type 0 where
  null : NewArray s [] 0 s
  array : (ss : List (Option (List ℕ))) → NewArray s ss s.next (grown s ss)

pub NewArray-Fresh :
    {s : Memory} {ss : List (Option (List ℕ))} {t : Memory} {iov : ℕ}
    → Fresh s
    → NewArray s ss iov t
    → Fresh t
NewArray-Fresh f null = f
NewArray-Fresh {s = s} f (array ss) = record {
  not_null = λ e. absurd (omega arith);
  unused = λ q h. update_other s.cell s.next q _ (λ e. omega arith) ∙ f.unused q (omega arith);
}

-- What is left of a new array after `free` is what was there before.
pub free-NewArray :
    {s : Memory} {ss : List (Option (List ℕ))} {t : Memory} {iov : ℕ} (f : Fresh s) (u : Memory)
    → NewArray s ss iov t
    → SameCells t u
    → (v : Memory) × (free iov u ≡ done tt v) × SameCells s v
unfolding free
free-NewArray f u null same = (u, refl, same)
free-NewArray {s = s} f u (array ss) same = (
  record u { cell = update u.cell s.next none },
  ground (arith, f.not_null, same s.next),
  λ q. ground (arith, f.unused s.next, same q),
)

-- Why a field is refused, with its error: an element is no string, or there is no memory.
pub data Refusal (oom : ℕ → Bool) (enomem : ℕ) (problem : String) (v : Value)
    : LuaError → Type 0 where
  stray : all_strings (elements_of v) ≡ false → Refusal oom enomem problem v (error problem)
  full : (p : ℕ) → oom p ≡ true → Refusal oom enomem problem v (fatal_error "malloc" enomem)

-- The outcomes of one field of the table: an array with its strings, with each value pushed twice, or an
-- error after `clean`, with no memory kept.
pub data GotArray (oom : ℕ → Bool) (enomem : ℕ) (clean : Cmd Memory (Unit {0})) (problem : String)
    (v : Value) (s : Memory) (stack : Stack) (r : Run Memory (ℕ × ℕ × Stack)) : Type 0 where
  got :
      (iov : ℕ) (t : Memory)
      → NewArray s (copies (elements_of v)) iov t
      → all_strings (elements_of v) ≡ true
      → r ≡ done (iov, length_items (elements_of v), stack ++ pushed (elements_of v)) t
      → GotArray oom enomem clean problem v s stack r
  refused :
      (e : LuaError) (t : Memory)
      → Refusal oom enomem problem v e
      → SameCells s t
      → r ≡ (clean >> raise e) t
      → GotArray oom enomem clean problem v s stack r

-- What follows an error is not done.
pub and_then-raise :
    {A B : Type 0} (r : Run Memory (Unit {0})) (e : LuaError) (k : A → Cmd Memory B)
    → and_then (and_then r (λ u. raise {A = A} e)) k ≡ and_then r (λ u. raise {A = B} e)
and_then-raise (done u t) e k = refl
and_then-raise (raised e' t) e k = refl
and_then-raise fault e k = refl
and_then-raise aborted e k = refl
and_then-raise out_of_fuel e k = refl

-- The error with which a field is refused.
refuse_array :
    (clean : Cmd Memory (Unit {0})) (problem : String) {s : Memory} (f : Fresh s)
    (ss : List (Option (List ℕ)))
    → (t : Memory) × SameCells s t
      × ((free s.next >> (clean >> raise {A = Stack} (error problem))) (grown s ss)
          ≡ (clean >> raise (error problem)) t)
refuse_array clean problem {s} f ss =
    let (t, freed, same) = free-NewArray f (grown s ss) (array ss) (λ q. refl) in
    (t, same, rw freed refl)

pub with_array-grown :
    (s : Memory) (ss ss' : List (Option (List ℕ)))
    → with_array (grown s ss) s.next ss' ≡ grown s ss'
with_array-grown s ss ss' =
    ap (λ c. record s { cell = c; next = s.next + 1 })
      (update-update s.cell s.next (some (strings ss)) (some (strings ss')))

module _ (oom : ℕ → Bool) (enomem : ℕ) where
  new_array-grown :
      (n : ℕ) (refuse : Cmd Memory ℕ) (s : Memory)
      → s.next ≢ 0
      → oom s.next ≡ false
      → new_array oom enomem (suc n) refuse s ≡ done s.next (grown s (replicate (suc n) none))
  unfolding new_array alloc
  new_array-grown n refuse s ne memory = ground arith

  new_array-refused :
      (n : ℕ) (refuse : Cmd Memory ℕ) (s : Memory)
      → oom s.next ≡ true
      → new_array oom enomem (suc n) refuse s ≡ refuse (record s { next = s.next + 1 })
  unfolding new_array alloc
  new_array-refused n refuse s e = ground arith

  get_array-item :
      (clean : Cmd Memory (Unit {0})) (problem : String) (v : Value) (vs : Items) (fs : Fields)
      (stack : Stack) {s : Memory}
      → Fresh s
      → oom s.next ≡ false
      → GotArray oom enomem clean problem
          (Value.table (item v vs) fs)
          s
          stack
          (get_array oom enomem clean problem (Value.table (item v vs) fs) stack s)
  unfolding get_array
  get_array-item clean problem v vs fs stack {s} f memory =
      let n = suc (length_items vs) in
      let (ss, filled) =
        fill_strings-eq (free s.next >> (clean >> raise (error problem))) s.next 0 (item v vs) stack
          (grown s (replicate n none)) (replicate n none) f.not_null (update_self s.cell s.next _)
          (omega (arith, length-replicate {0} {A = Option (List ℕ)} n none)) in
      elim (Bool-cases (all_strings (item v vs))) [
        | inl all ↦
            let put =
              fill_strings-copies (free s.next >> (clean >> raise (error problem))) s.next 0
                (item v vs) stack (grown s (replicate n none)) [] f.not_null refl
                (update_self s.cell s.next _) all in
            got s.next (grown s (copies (item v vs))) (array (copies (item v vs))) all (
              rw
                (
                  new_array-grown _ _ s f.not_null memory,
                  put,
                  with_array-grown s (replicate n none) (copies (item v vs)),
                )
                refl)
        | inr unlike ↦
            let (t, same, error_of) = refuse_array clean problem f ss in
            refused (error problem) t (stray unlike) same (
              rw
                (
                  new_array-grown _ _ s f.not_null memory,
                  filled,
                  unlike,
                  with_array-grown s (replicate n none) ss,
                  error_of,
                )
                (and_then-raise (clean t) _ _))
      ]

  pub get_array-GotArray :
      (clean : Cmd Memory (Unit {0})) (problem : String) (v : Value) (stack : Stack) {s : Memory}
      → Fresh s
      → GotArray oom enomem clean problem v s stack (get_array oom enomem clean problem v stack s)
  unfolding get_array
  get_array-GotArray clean problem (Value.table last fs) stack {s} f =
      got 0 s null refl (rw append-nil refl)
  get_array-GotArray clean problem (Value.table (item v vs) fs) stack {s} f =
      elim (Bool-cases (oom s.next)) [
        | inl memory_full ↦
            refused (fatal_error "malloc" enomem) (record s { next = s.next + 1 })
              (full s.next memory_full) (λ q. refl)
              (rw (new_array-refused _ _ s memory_full)
                (and_then-raise (clean (record s { next = s.next + 1 })) _ _))
        | inr memory ↦ get_array-item clean problem v vs fs stack f memory
      ]
  get_array-GotArray clean problem Value.nil stack {s} f = got 0 s null refl (rw append-nil refl)
  get_array-GotArray clean problem v stack {s} f = got 0 s null refl (rw append-nil refl)
