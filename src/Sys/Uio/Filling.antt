-- ===== src/Sys/Uio/Filling.antt =====
-- `checkriovecs` of sys/uio/lua_uio.h: the array with all its buffers, or an error and no memory.
use flualibs.Common.{
  ℕ, zero, suc, ◌+◌, ◌≡◌, ◌≢◌, inl, inr, refl, ap, sym, ◌∙◌, arith, Bool, true, none, some, List,
  [], ◌∷◌, ◌++◌, length, replicate, length-append, length-replicate, set, update, update_self,
  update_other, ltb, ==-ne, Bool-cases,
}
use mathlib.Core.List.{append_assoc}
use flualibs.Common.Int.{to_word}
use flualibs.Lua.{Value, Items, last, item, length_items}
use flualibs.Lua.Run.{Run, LuaError, ◌>>◌, arg_error, fatal_error, done, raised}
use flualibs.Utils.{fatal}
use flualibs.Heap.{alloc}
use flualibs.Heap.Cells.{load-done, store-done}
use flualibs.Sys.{bytes, iovecs, Memory}
use flualibs.Sys.Keeps.{Fresh, SameCells}
use flualibs.Sys.Uio.{put_iovec, freeriovecs, fill_riovecs, checkriovecs}
use flualibs.Sys.Uio.Buffers.{AllNull, Filled-update, Filled-append, Held, freeriovecs-Held}

set-append :
    (vs : List (ℕ × ℕ)) (v w : ℕ × ℕ) (ws : List (ℕ × ℕ))
    → set (vs ++ v ∷ ws) (length vs) w ≡ vs ++ w ∷ ws
set-append [] v w ws = refl
set-append (u ∷ vs) v w ws = ap (λ us. u ∷ us) (set-append vs v w ws)

abbrev with_iovecs : Memory → ℕ → List (ℕ × ℕ) → Memory
with_iovecs t iovs vs = record t { cell = update t.cell iovs (some (iovecs vs)) }

put_iovec-done :
    (iovs : ℕ) (vs ws : List (ℕ × ℕ)) (v w : ℕ × ℕ) (t : Memory)
    → iovs ≢ 0
    → t.cell iovs ≡ some (iovecs (vs ++ v ∷ ws))
    → put_iovec iovs (length vs) w t ≡ done tt (with_iovecs t iovs (vs ++ w ∷ ws))
unfolding put_iovec
put_iovec-done iovs vs ws v w t ne at =
    let inside : ltb (length vs) (length (vs ++ v ∷ ws)) ≡ true =
      ground (arith, length-append vs (v ∷ ws)) in
    rw (load-done iovs t ne at, inside, set-append vs v w ws)
      (store-done iovs t ne at (iovecs (vs ++ w ∷ ws)))

abbrev grown_by : Memory → ℕ → Memory
grown_by t len = record t {
  cell = update t.cell t.next (some (bytes (replicate len none)));
  next = t.next + 1;
}

-- A buffer is allocated behind the others and put into the array.
Held-grown :
    {s t : Memory} (vs ws : List (ℕ × ℕ)) (v : ℕ × ℕ) (len : ℕ)
    → t.next ≡ s.next + 1 + length vs
    → Held s t vs (v ∷ ws)
    → Held s
        (with_iovecs (grown_by t len) s.next (vs ++ (t.next, len) ∷ ws))
        (vs ++ (t.next, len) ∷ [])
        ws
Held-grown {s} {t} vs ws v len e h = record {
  array =
      update_self (grown_by t len).cell s.next _
      ∙ ap (λ us. some (iovecs us)) (sym (append_assoc vs ((t.next, len) ∷ []) ws));
  filled =
      Filled-append (s.next + 1) vs _ t.next len e
        (Filled-update (s.next + 1) vs (grown_by t len).cell s.next _ (inl (omega arith))
          (Filled-update (s.next + 1) vs t.cell t.next _ (inr (omega (arith, e))) h.filled))
        (record {
          contents = replicate len none;
          at =
              update_other (grown_by t len).cell s.next t.next _ (λ z. absurd (omega (arith, e)))
              ∙ update_self t.cell t.next _;
          size = length-replicate len none;
        });
  no_more = h.no_more.1;
  below = λ q lt. ground (arith, h.below q);
  above = λ q le. ground (arith, h.above q, length-append vs ((t.next, len) ∷ []));
}

-- No buffer is allocated, and the array has NULL for it.
Held-null :
    {s t : Memory} (vs ws : List (ℕ × ℕ)) (v : ℕ × ℕ) (len n : ℕ)
    → Held s t vs (v ∷ ws)
    → Held s (with_iovecs (record t { next = n }) s.next (vs ++ (0, len) ∷ ws)) vs ((0, len) ∷ ws)
Held-null {s} {t} vs ws v len n h = record {
  array = update_self t.cell s.next _;
  filled = Filled-update (s.next + 1) vs t.cell s.next _ (inl (omega arith)) h.filled;
  no_more = (refl, h.no_more.1);
  below = λ q lt. ground (arith, h.below q);
  above = λ q le. ground (arith, h.above q);
}

-- What the loop ends with: all buffers, or an error and no memory.
pub data Riovecs (s : Memory) (n : ℕ) (r : Run Memory (Unit {0})) : Type 0 where
  all_held :
      (vs : List (ℕ × ℕ)) (t : Memory)
      → Held s t vs []
      → n ≡ length vs
      → r ≡ done tt t
      → Riovecs s n r
  refused : (e : LuaError) (t : Memory) → SameCells s t → r ≡ raised e t → Riovecs s n r

module _ (oom : ℕ → Bool) (enomem idx : ℕ) {s : Memory} (f : Fresh s) where
  -- Where malloc fails.
  fill-null :
      (w : ℕ) (vs nulls : List (ℕ × ℕ)) (v : ℕ × ℕ) (n i m : ℕ) (t : Memory)
      → Held s t vs (v ∷ nulls)
      → n ≡ length (vs ++ v ∷ nulls)
      → i ≡ length vs
      → Riovecs s n (
          (put_iovec s.next i (0, w) >> (freeriovecs s.next n >> fatal "malloc" enomem))
            (record t { next = m }))
  fill-null w vs nulls v n i m t h en ei =
      let (u, freed, same) = freeriovecs-Held f (Held-null vs nulls v w m h) in
      let size : n ≡ length (vs ++ (0, w) ∷ nulls) =
        omega (arith, en, length-append vs (v ∷ nulls), length-append vs ((0, w) ∷ nulls)) in
      refused (fatal_error "malloc" enomem) u same (
        rw
          (
            ei,
            put_iovec-done s.next vs nulls v (0, w) (record t { next = m }) f.not_null h.array,
            size,
            freed,
          )
          refl)

  fill_riovecs-Riovecs :
      (items : Items) (vs nulls : List (ℕ × ℕ)) (n i : ℕ) (t : Memory)
      → Held s t vs nulls
      → t.next ≡ s.next + 1 + length vs
      → length nulls ≡ length_items items
      → n ≡ length (vs ++ nulls)
      → i ≡ length vs
      → Riovecs s n (fill_riovecs oom enomem idx s.next n i items t)
  unfolding fill_riovecs alloc
  fill_riovecs-Riovecs last vs [] n i t h e k en ei =
      all_held vs t h (omega (arith, en, length-append vs [])) refl
  fill_riovecs-Riovecs last vs (v ∷ nulls) n i t h e k en ei = absurd (omega (arith, k))
  fill_riovecs-Riovecs (item v items) vs [] n i t h e k en ei = absurd (omega (arith, k))
  fill_riovecs-Riovecs (item (Value.integer len) items) vs (v ∷ nulls) n i t h e k en ei =
      let w = to_word 64 len in
      let base : ℕ × ℕ = (t.next, w) in
      elim (Bool-cases (oom t.next)) [
        | inl full ↦ rw full (fill-null w vs nulls v n i (t.next + 1) t h en ei)
        | inr memory ↦
            rw
              (
                memory,
                ei,
                put_iovec-done s.next vs nulls v (t.next, w) (grown_by t w) f.not_null
                    (update_other t.cell t.next s.next _ (λ z. absurd (omega (arith, e)))
                      ∙ h.array),
                ==-ne t.next 0 (λ z. absurd (omega (arith, e))),
              )
              (fill_riovecs-Riovecs items (vs ++ base ∷ []) nulls n (length vs + 1)
                (with_iovecs (grown_by t w) s.next (vs ++ base ∷ nulls))
                (Held-grown vs nulls v w e h) (omega (arith, e, length-append vs (base ∷ [])))
                (omega (arith, k))
                (omega (
                  arith,
                  en,
                  length-append vs (v ∷ nulls),
                  length-append (vs ++ base ∷ []) nulls,
                  length-append vs (base ∷ []),
                ))
                (omega (arith, length-append vs (base ∷ []))))
      ]
  fill_riovecs-Riovecs (item Value.nil items) vs (v ∷ nulls) n i t h e k en ei =
      let (u, freed, same) = freeriovecs-Held f h in
      refused (arg_error idx "expected iovec buffer lengths") u same (rw (en, freed) refl)
  fill_riovecs-Riovecs (item w items) vs (v ∷ nulls) n i t h e k en ei =
      let (u, freed, same) = freeriovecs-Held f h in
      refused (arg_error idx "expected iovec buffer lengths") u same (rw (en, freed) refl)

-- What `checkriovecs` ends with: the address and the number of buffers, or an error and no memory.
pub data Checked (s : Memory) (r : Run Memory (ℕ × ℕ)) : Type 0 where
  checked :
      (vs : List (ℕ × ℕ)) (t : Memory)
      → Held s t vs []
      → r ≡ done (s.next, length vs) t
      → Checked s r
  unchecked : (e : LuaError) (t : Memory) → SameCells s t → r ≡ raised e t → Checked s r

AllNull-replicate : (n : ℕ) → AllNull (replicate n (0, 0))
AllNull-replicate zero = tt
AllNull-replicate (suc n) = (refl, AllNull-replicate n)

pub checkriovecs-Checked :
    (oom : ℕ → Bool) (enomem idx : ℕ) {s : Memory} (f : Fresh s) (v : Value)
    → Checked s (checkriovecs oom enomem idx v s)
unfolding checkriovecs alloc
checkriovecs-Checked oom enomem idx {s} f (Value.table vs fs) =
    let n = length_items vs in
    let empty : List (ℕ × ℕ) = replicate n (0, 0) in
    let t : Memory = record s {
      cell = update s.cell s.next (some (iovecs empty));
      next = s.next + 1;
    } in
    let h : Held s t [] empty = record {
      array = update_self s.cell s.next _;
      filled = tt;
      no_more = AllNull-replicate n;
      below = λ q lt. ground arith;
      above = λ q le. ground (arith, f.unused q);
    } in
    elim (Bool-cases (oom s.next)) [
      | inl full ↦
          unchecked (fatal_error "calloc" enomem) (record s { next = s.next + 1 }) (λ q. refl)
            (rw full refl)
      | inr memory ↦
          elim (fill_riovecs-Riovecs oom enomem idx f vs [] empty n 0 t h (omega arith)
            (length-replicate n (0, 0)) (sym (length-replicate n (0, 0))) refl) [
              | all_held us u k en eq ↦
                  checked us u k
                    (rw (memory, ==-ne s.next 0 f.not_null, eq) (ap (λ m. done (s.next, m) u) en))
              | refused e u same eq ↦
                  unchecked e u same (rw (memory, ==-ne s.next 0 f.not_null, eq) refl)
            ]
    ]
checkriovecs-Checked oom enomem idx {s} f Value.nil = unchecked _ s (λ q. refl) refl
checkriovecs-Checked oom enomem idx {s} f v = unchecked _ s (λ q. refl) refl
