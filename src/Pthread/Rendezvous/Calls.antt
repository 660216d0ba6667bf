-- ===== src/Pthread/Rendezvous/Calls.antt =====
-- What two calls of `exchange` and `timedexchange` of libpthread/lua_pthread.c give each other.
use flualibs.Common.{
  ℕ, suc, ◌+◌, ◌-◌, ◌≡◌, refl, sym, ap, ◌∙◌, arith, true, false, some, List, [], ◌∷◌, ◌++◌, length,
  length-append,
}
use flualibs.Common.Int.{ℤ, pos, negsuc}
use flualibs.Lua.{Value}
use mathlib.Core.List.{append_assoc}
use flualibs.Lua.Stack.{
  drop, take, top_values, insert, top_values-pushed, drop-append, insert-append, to_front-append,
}
use flualibs.Pthread.Rendezvous.{
  Message, bad_argument, other_thread, take_results, Sent, sent, refused, Stack, top_integer, pop,
  last_value, exchange, returned, raised, leave,
}

top_integer-append : (xs : Stack) (n : ℤ) → top_integer (xs ++ Value.integer n ∷ []) ≡ n
top_integer-append [] n = refl
top_integer-append (x ∷ []) n = refl
top_integer-append (x ∷ y ∷ xs) n = top_integer-append (y ∷ xs) n

pop-append : (xs : Stack) (v : Value) → pop (xs ++ v ∷ []) ≡ xs
pop-append [] v = refl
pop-append (x ∷ []) v = refl
pop-append (x ∷ y ∷ xs) v = ap (λ ys. x ∷ ys) (pop-append (y ∷ xs) v)

-- The stack of a thread that waits: what stood below its values, the values, and their count.
abbrev pub waiting_stack : Stack → List Value → Stack
waiting_stack below vs = (below ++ vs) ++ Value.integer (pos (length vs)) ∷ []

last_value-append : (xs : Stack) (v : Value) → last_value (xs ++ v ∷ []) ≡ some v
last_value-append [] v = refl
last_value-append (x ∷ []) v = refl
last_value-append (x ∷ y ∷ xs) v = last_value-append (y ∷ xs) v

-- A count of copies, above anything.
leave-returned :
    (below vs : List Value) (n : ℕ)
    → length vs ≡ n
    → leave false (pos n) (below ++ vs) ≡ returned vs
leave-returned below vs n e =
    ap (λ k. leave false (pos k) (below ++ vs)) (sym e) ∙ ap returned (top_values-pushed below vs)

-- Values below their count.
pub counted-returned :
    (below vs : List Value) (n : ℕ)
    → length vs ≡ n
    → let stack = (below ++ vs) ++ Value.integer (pos n) ∷ [] in
      leave false (top_integer stack) (pop stack) ≡ returned vs
counted-returned below vs n e =
    rw (top_integer-append (below ++ vs) (pos n), pop-append (below ++ vs) (Value.integer (pos n)))
      (leave-returned below vs n e)

module _ (copyn : ℕ → List Value → Sent) (text : Message → List ℕ) where
  -- `exchange` up to the first copy, on the arguments `vs` and a waiter with the values `ws`.
  exchange-taken :
      (own other : Stack) (vs ws : List Value)
      → exchange copyn text (own ++ vs) (waiting_stack other ws) (length own + 1) (length vs)
        ≡ take_results copyn text
            (own ++ vs)
            (other ++ ws)
            (pos (length ws))
            (length own + 1)
            (length vs)
            (copyn (length other + 1) ws)
  unfolding exchange
  exchange-taken own other vs ws =
      let place : length (other ++ ws) - length ws + 1 ≡ length other + 1 =
        omega (arith, length-append other ws) in
      rw
        (
          top_integer-append (other ++ ws) (pos (length ws)),
          pop-append (other ++ ws) (Value.integer (pos (length ws))),
          top_values-pushed other ws,
          place,
        )
        refl

  arguments :
      (own : Stack) (vs : List Value)
      → take (length vs) (drop (length own + 1 - 1) (own ++ vs)) ≡ vs
  arguments own vs =
      let n : length own + 1 - 1 ≡ length own = omega arith in
      ap (λ k. take (length vs) (drop k (own ++ vs))) n
      ∙ ap (take (length vs)) (drop-append own vs)
      ∙ take_all vs
    where
      take_all : (xs : List Value) → take (length xs) xs ≡ xs
      take_all [] = refl
      take_all (x ∷ xs) = ap (λ ys. x ∷ ys) (take_all xs)

  -- When both rows of values are copied, each thread has the copies of the other's values on its stack.
  pub exchange-sent :
      (own other : Stack) (vs ws vs' ws' : List Value)
      → copyn (length other + 1) ws ≡ sent ws'
      → copyn (length own + 1) vs ≡ sent vs'
      → exchange copyn text (own ++ vs) (waiting_stack other ws) (length own + 1) (length vs) ≡ (
        pos (length ws),
        (own ++ vs) ++ ws',
        (other ++ ws) ++ (vs' ++ Value.integer (pos (length vs)) ∷ []),
      )
  exchange-sent own other vs ws vs' ws' theirs mine =
      rw (exchange-taken own other vs ws, theirs, arguments own vs, mine) refl

  -- Two calls of `exchange` whose values are copied to as many values: the thread that came second
  -- returns the copies of the waiter's values, and the waiter those of the other's.
  pub exchange-swapped :
      (own other : Stack) (vs ws vs' ws' : List Value)
      → copyn (length other + 1) ws ≡ sent ws'
      → copyn (length own + 1) vs ≡ sent vs'
      → length ws' ≡ length ws
      → length vs' ≡ length vs
      → let r =
          exchange copyn text (own ++ vs) (waiting_stack other ws) (length own + 1) (length vs) in
        (leave false r.0 r.1 ≡ returned ws')
        × (leave false (top_integer r.2) (pop r.2) ≡ returned vs')
  exchange-swapped own other vs ws vs' ws' theirs mine same_theirs same_mine =
      rw (exchange-sent own other vs ws vs' ws' theirs mine) (
        leave-returned (own ++ vs) ws' (length ws) same_theirs,
        rw (← append_assoc (other ++ ws) vs' (Value.integer (pos (length vs)) ∷ []))
            (counted-returned (other ++ ws) vs' (length vs) same_mine),
      )

  -- A message and -1 on the stack of a waiter.
  waiter_raises :
      (below : Stack) (m : Value)
      → let answer = below ++ (m ∷ Value.integer (negsuc 0) ∷ []) in
        leave false (top_integer answer) (pop answer) ≡ raised (some m)
  waiter_raises below m =
      rw
        (
          ← append_assoc below (m ∷ []) (Value.integer (negsuc 0) ∷ []),
          top_integer-append (below ++ m ∷ []) (negsuc 0),
          pop-append (below ++ m ∷ []) (Value.integer (negsuc 0)),
        )
        (ap raised (last_value-append below m))

  -- When the copy of the waiter's values is refused, the waiter raises an error with the index of the
  -- value, and the thread that came second the message on the other thread.
  pub exchange-refused :
      (own other : Stack) (vs ws : List Value) (i : ℕ)
      → copyn (length other + 1) ws ≡ refused i
      → let r =
          exchange copyn text (own ++ vs) (waiting_stack other ws) (length own + 1) (length vs) in
        (leave false r.0 r.1 ≡ raised (some (Value.string (text other_thread))))
        × (leave false (top_integer r.2) (pop r.2)
            ≡ raised (some (Value.string (text (bad_argument (pos (i - 1)))))))
  exchange-refused own other vs ws i e =
      rw (exchange-taken own other vs ws, e)
        (
          ap raised (last_value-append (own ++ vs) (Value.string (text other_thread))),
          waiter_raises (other ++ ws) (Value.string (text (bad_argument (pos (i - 1))))),
        )

  -- When the waiter's values are copied and the copy of the other's is refused, the thread that came
  -- second raises an error with the index of its value, and the waiter the message on the
  -- other thread.
  pub exchange-half_refused :
      (own other : Stack) (vs ws ws' : List Value) (i : ℕ)
      → copyn (length other + 1) ws ≡ sent ws'
      → copyn (length own + 1) vs ≡ refused i
      → let r =
          exchange copyn text (own ++ vs) (waiting_stack other ws) (length own + 1) (length vs) in
        (leave false r.0 r.1 ≡ raised (some (Value.string (text (bad_argument (pos (i - 1)))))))
        × (leave false (top_integer r.2) (pop r.2)
            ≡ raised (some (Value.string (text other_thread))))
  exchange-half_refused own other vs ws ws' i e f =
      rw (exchange-taken own other vs ws, e, arguments own vs, f)
        (
          ap raised (
              last_value-append ((own ++ vs) ++ ws')
                (Value.string (text (bad_argument (pos (i - 1)))))),
          waiter_raises (other ++ ws) (Value.string (text other_thread)),
        )

-- A `timedexchange` that gets values returns the value that stands below them on the stack in place of
-- true, and then the values.
pub timed_answer-below :
    (below : Stack) (v : Value) (vs : List Value)
    → leave true (pos (length vs)) ((below ++ v ∷ []) ++ vs) ≡ returned (v ∷ vs)
timed_answer-below below v vs =
    let count : length (((below ++ v ∷ []) ++ vs) ++ Value.boolean true ∷ []) - suc (length vs) - 1
        ≡ length below =
      omega (
        arith,
        length-append ((below ++ v ∷ []) ++ vs) (Value.boolean true ∷ []),
        length-append (below ++ v ∷ []) vs,
        length-append below (v ∷ []),
      ) in
    ap returned (
      ap
        (λ k.
          top_values (suc (length vs))
            (insert k (((below ++ v ∷ []) ++ vs) ++ Value.boolean true ∷ [])))
        count
      ∙ rw
          (
            append_assoc (below ++ v ∷ []) vs (Value.boolean true ∷ []),
            append_assoc below (v ∷ []) (vs ++ Value.boolean true ∷ []),
          )
          (ap (top_values (suc (length vs)))
            (insert-append below ((v ∷ vs) ++ Value.boolean true ∷ [])))
      ∙ ap (λ xs. top_values (suc (length vs)) (below ++ xs))
          (to_front-append (v ∷ vs) (Value.boolean true))
      ∙ ap (top_values (suc (length vs)))
          (sym (append_assoc below (Value.boolean true ∷ []) (v ∷ vs)))
      ∙ top_values-pushed (below ++ Value.boolean true ∷ []) (v ∷ vs))
