-- ===== src/Sys/Uio/Buffers.antt =====
-- The buffers of sys/uio/lua_uio.h on the heap: consecutive addresses behind the array, and their
-- release.
use flualibs.Common.{
  ◌⊎◌, inl, inr, ℕ, suc, ◌+◌, ◌≤◌, ◌<◌, ◌≡◌, ◌≢◌, refl, ◌∙◌, arith, Option, none, some, List, [],
  ◌∷◌, ◌++◌, length, update, update_other, if◌then◌else◌, ltb, leb, ◌&&◌,
}
use mathlib.Core.Path.{subst}
use flualibs.Lua.Run.{done}
use flualibs.Heap.{free}
use flualibs.Heap.Cells.{load-done, free-done}
use flualibs.Sys.{Obj, bytes, iovecs, Memory}
use flualibs.Sys.Keeps.{Fresh, SameCells}
use flualibs.Sys.Uio.{free_buffers, freeriovecs}

abbrev pub Cells : Type 0
Cells = ℕ → Option Obj

-- A buffer of some length.
pub record Buffer (c : Cells) (b len : ℕ) : Type 0 where
  pub contents : List (Option ℕ)
  pub at : c b ≡ some (bytes contents)
  pub size : length contents ≡ len

-- Buffers of the given lengths at consecutive addresses from `b` on.
abbrev pub Filled : ℕ → List (ℕ × ℕ) → Cells → Type 0
Filled b [] c = Unit
Filled b ((base, len) ∷ vs) c = (base ≡ b) × Buffer c b len × Filled (b + 1) vs c

-- Elements of the array without a buffer.
abbrev pub AllNull : List (ℕ × ℕ) → Type 0
AllNull [] = Unit
AllNull ((base, len) ∷ vs) = (base ≡ 0) × AllNull vs

pub Filled-update :
    (b : ℕ) (vs : List (ℕ × ℕ)) (c : Cells) (q : ℕ) (o : Option Obj)
    → (q < b) ⊎ (b + length vs ≤ q)
    → Filled b vs c
    → Filled b vs (update c q o)
Filled-update b [] c q o apart h = tt
Filled-update b ((base, len) ∷ vs) c q o apart (e, here, h) = (
  e,
  record { contents = here.contents; at = stays apart; size = here.size },
  Filled-update (b + 1) vs c q o (later apart) h,
)
  where
    stays : (q < b) ⊎ (b + suc (length vs) ≤ q) → update c q o b ≡ some (bytes here.contents)
    stays (inl p) = update_other c q b o (λ z. absurd (omega arith)) ∙ here.at
    stays (inr p) = update_other c q b o (λ z. absurd (omega arith)) ∙ here.at

    later : (q < b) ⊎ (b + suc (length vs) ≤ q) → (q < b + 1) ⊎ (b + 1 + length vs ≤ q)
    later (inl p) = inl (omega arith)
    later (inr p) = inr (omega arith)

pub Filled-append :
    (b : ℕ) (vs : List (ℕ × ℕ)) (c : Cells) (base len : ℕ)
    → base ≡ b + length vs
    → Filled b vs c
    → Buffer c base len
    → Filled b (vs ++ (base, len) ∷ []) c
Filled-append b [] c base len e h here =
    let e' : base ≡ b = omega arith in (e', subst (λ q. Buffer c q len) (e') here, tt)
Filled-append b ((base', len') ∷ vs) c base len e (e', first, h) here =
    (e', first, Filled-append (b + 1) vs c base len (omega arith) h here)

free_buffers-null :
    (vs : List (ℕ × ℕ)) (t : Memory) → AllNull vs → free_buffers (length vs) vs t ≡ done tt t
unfolding free_buffers free
free_buffers-null [] t h = refl
free_buffers-null ((base, len) ∷ vs) t (e, h) = ground (arith, free_buffers-null vs t h)

-- The cells from `b` on, `k` of them, are freed.
abbrev pub erased : ℕ → ℕ → Cells → Cells
erased b k c q = if leb b q && ltb q (b + k) then none else c q

free_buffers-erased :
    (b : ℕ) (vs nulls : List (ℕ × ℕ)) (t : Memory)
    → b ≢ 0
    → Filled b vs t.cell
    → AllNull nulls
    → (u : Memory) × (free_buffers (length (vs ++ nulls)) (vs ++ nulls) t ≡ done tt u)
      × ((q : ℕ) → u.cell q ≡ erased b (length vs) t.cell q)
      × (u.next ≡ t.next)
unfolding free_buffers
free_buffers-erased b [] nulls t ne h nn =
    (t, free_buffers-null nulls t nn, λ q. ground arith, refl)
free_buffers-erased b ((base, len) ∷ vs) nulls t ne (e, here, h) nn =
    let t' : Memory = record t { cell = update t.cell b none } in
    let (u, freed, cells, next) =
      free_buffers-erased (b + 1) vs nulls t' (λ z. absurd (omega arith))
        (Filled-update (b + 1) vs t.cell b none (inl (omega arith)) h) nn in
    let first : free base t ≡ done tt t' = rw e (free-done b t ne here.at) in
    (u, rw first freed, λ q. ground (arith, cells q), next)

-- The array at the address `s.next`, as far as its buffers are allocated: they stand behind it, and
-- `nulls` are the elements without one.
pub record Held (s t : Memory) (vs nulls : List (ℕ × ℕ)) : Type 0 where
  pub array : t.cell s.next ≡ some (iovecs (vs ++ nulls))
  pub filled : Filled (s.next + 1) vs t.cell
  pub no_more : AllNull nulls
  pub below : (q : ℕ) → q < s.next → t.cell q ≡ s.cell q
  pub above : (q : ℕ) → s.next + 1 + length vs ≤ q → t.cell q ≡ none

-- `freeriovecs` gives back the array and all its buffers, and nothing else.
pub freeriovecs-Held :
    {s t : Memory} {vs nulls : List (ℕ × ℕ)}
    → Fresh s
    → Held s t vs nulls
    → (u : Memory) × (freeriovecs s.next (length (vs ++ nulls)) t ≡ done tt u) × SameCells s u
unfolding freeriovecs
freeriovecs-Held {s} {t} {vs} {nulls} f h =
    let (u, freed, cells, next) =
      free_buffers-erased (s.next + 1) vs nulls t (λ z. absurd (omega arith)) h.filled h.no_more in
    let at : u.cell s.next ≡ some (iovecs (vs ++ nulls)) = ground (arith, cells s.next, h.array) in
    (
      record u { cell = update u.cell s.next none },
      rw (load-done s.next t f.not_null h.array, freed) (free-done s.next u f.not_null at),
      λ q. ground (arith, cells q, h.below q, h.above q, f.unused q),
    )
