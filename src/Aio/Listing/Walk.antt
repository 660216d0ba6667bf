-- ===== src/Aio/Listing/Walk.antt =====
-- The loop of `l_lio_listio` in aio/lua_aio.c over the elements of its list: which requests it begins, and
-- at which element it stops.
use Prim.Native.Nat.{bit_and}
use mathlib.Core.List.{append_assoc, append-nil}
use mathlib.Core.Path.{subst}
use native.Mathlib.Numerals.{add-one}
use flualibs.Common.{
  ℕ, ◌≡◌, ◌≢◌, refl, inl, inr, ◌⊎◌, true, false, Option, some, none, List, [], ◌∷◌, ◌++◌, arith,
  sym, update, ◌==◌, Bool-cases, get_elem?, if◌then◌else◌,
}
use flualibs.Common.Int.{to_word}
use flualibs.Utils.{testcookie}
use flualibs.Lua.{Value, Items, last, item, Meta, same_meta, Userdata}
use flualibs.Lua.Run.{Run, done, raised, fault, arg_error, Api}
use flualibs.Aio.Defs.{
  State, uninit, init, pending, Rcaiocb, Obj, block, bytes, iovecs, load_block, AioStore, Kernel,
}
use flualibs.Aio.Batch.{entry_count, begin_entry, begin_all}
use flualibs.Aio.Submission.{load_block-done, store_block-done, with_block-same}
use flualibs.Aio.Listing.{
  Cells, Listed, rollback_states-Listed, rollback_states-more, Listed-append,
}

abbrev pub pointer_of : Value → ℕ
pointer_of (Value.light p) = p
pointer_of v = 0

-- The address that a value names: that of a control block's userdata, or NULL.
abbrev pub address : List Userdata → Value → ℕ
address uds (Value.userdata u) = elim (get_elem? uds u) [
  | none ↦ 0
  | some d ↦ if same_meta d.meta Meta.aiocb then pointer_of d.cookie else 0
]
address uds v = 0

testcookie-address :
    (v : Value) (s : AioStore) → testcookie Meta.aiocb v s ≡ done (address s.uds v) s
unfolding testcookie
testcookie-address (Value.userdata u) s = ground arith
testcookie-address Value.nil s = refl
testcookie-address v s = refl

-- A request can begin on a block with a buffer, and a read also on one without.
abbrev pub Admitted : Kernel → Rcaiocb → Type 0
Admitted kernel r =
    (r.state ≡ init)
    ⊎ ((r.state ≡ uninit) × (bit_and (to_word 32 r.cb.lio_opcode) kernel.lio_read ≢ 0))

module _ (kernel : Kernel) (uds : List Userdata) where
  -- From the heap `c`, each element in turn names a block that is admitted and becomes pending: the
  -- blocks with the states before, and the heap after them.
  pub data Pending : Cells → Items → List (ℕ × State) → Cells → Type 0 where
    finished : (c : Cells) → Pending c last [] c
    begins :
        (c : Cells) (v : Value) (r : Rcaiocb) {vs : Items} {es : List (ℕ × State)} {d : Cells}
        → address uds v ≢ 0
        → c (address uds v) ≡ some (block r)
        → Admitted kernel r
        → Pending (update c (address uds v) (some (block (record r { state = pending })))) vs es d
        → Pending c (item v vs) ((address uds v, r.state) ∷ es) d

  -- From the heap `c`, the elements before one that is `Wrong` name blocks that are admitted and become
  -- pending in turn.
  pub data StopsAt (Wrong : Cells → Value → Type 0) : Cells → Items → Type 0 where
    here : (c : Cells) (v : Value) (vs : Items) → Wrong c v → StopsAt Wrong c (item v vs)
    later :
        (c : Cells) (v : Value) (r : Rcaiocb) {vs : Items}
        → address uds v ≢ 0
        → c (address uds v) ≡ some (block r)
        → Admitted kernel r
        → StopsAt Wrong (update c (address uds v) (some (block (record r { state = pending })))) vs
        → StopsAt Wrong c (item v vs)

  -- An element that names no control block.
  abbrev pub Stray : Cells → Value → Type 0
  Stray c v = address uds v ≡ 0

  -- An element whose control block is not admitted, or whose cookie points to no block.
  pub data Bad (c : Cells) (v : Value) : Type 0 where
    refused :
        (r : Rcaiocb)
        → address uds v ≢ 0
        → c (address uds v) ≡ some (block r)
        → ¬ Admitted kernel r
        → Bad c v
    dangling : address uds v ≢ 0 → ((r : Rcaiocb) → c (address uds v) ≢ some (block r)) → Bad c v

-- How the loop ends on `vs`, with the entries `es` written before, from the heap `c`, where the heap was
-- `start` at first.
data Batch (kernel : Kernel) (start : Cells) (s : AioStore) (es : List (ℕ × State)) (c : Cells)
    (vs : Items) : Run AioStore (List (ℕ × State)) → Type 0 where
  all_begun :
      (all more : List (ℕ × State)) (d : Cells)
      → all ≡ es ++ more
      → Pending kernel s.uds c vs more d
      → Listed start all d
      → Batch kernel start s es c vs (done all (record s { cell = d }))
  put_back :
      StopsAt kernel s.uds (Stray kernel s.uds) c vs
      → Batch kernel start s es c vs
          (raised (arg_error 2 "invalid aiocb") (record s { cell = start }))
  broken : StopsAt kernel s.uds (Bad kernel s.uds) c vs → Batch kernel start s es c vs fault

Batch-begins :
    (kernel : Kernel) (start : Cells) (s : AioStore) (es : List (ℕ × State)) (c : Cells) (v : Value)
    (vs : Items) (r : Rcaiocb)
    → address s.uds v ≢ 0
    → c (address s.uds v) ≡ some (block r)
    → Admitted kernel r
    → (run : Run AioStore (List (ℕ × State)))
    → Batch kernel start s
        (es ++ (address s.uds v, r.state) ∷ [])
        (update c (address s.uds v) (some (block (record r { state = pending }))))
        vs
        run
    → Batch kernel start s es c (item v vs) run
Batch-begins kernel start s es c v vs r ne at ok run (Batch.all_begun all more d eq p h) =
    Batch.all_begun all ((address s.uds v, r.state) ∷ more) d (rw eq (simp append_assoc))
      (begins c v r ne at ok p) h
Batch-begins kernel start s es c v vs r ne at ok run (Batch.put_back p) =
    Batch.put_back (later c v r ne at ok p)
Batch-begins kernel start s es c v vs r ne at ok run (Batch.broken p) =
    Batch.broken (later c v r ne at ok p)

module _ (api : Api) (kernel : Kernel) where
  begin_entry-eq :
      (r : Rcaiocb)
      → (begin_entry api kernel r ≡ (true, record r { state = pending }, r.state))
          × Admitted kernel r
        ⊎ (begin_entry api kernel r ≡ (false, r, r.state)) × ¬ Admitted kernel r
  unfolding flualibs.Aio.Defs.rcaiocb_trybeginread
  begin_entry-eq r = ground arith

  -- The memory at `p` is a control block or not.
  block-cases :
      (c : Cells) (p : ℕ)
      → ((r : Rcaiocb) × (c p ≡ some (block r))) ⊎ ((r : Rcaiocb) → c p ≢ some (block r))
  block-cases c p = go (c p) refl
    where
      go :
          (o : Option Obj)
          → c p ≡ o
          → ((r : Rcaiocb) × (c p ≡ some (block r))) ⊎ ((r : Rcaiocb) → c p ≢ some (block r))
      go none e = inr (λ r f. cc)
      go (some (block r)) e = inl (r, e)
      go (some (bytes bs)) e = inr (λ r f. cc)
      go (some (iovecs vs)) e = inr (λ r f. cc)

  load_block-dangling :
      (s : AioStore) (p : ℕ) → ((r : Rcaiocb) → s.cell p ≢ some (block r)) → load_block p s ≡ fault
  unfolding load_block flualibs.Heap.load
  load_block-dangling s p missing = go (s.cell p) refl
    where
      go : (o : Option Obj) → s.cell p ≡ o → load_block p s ≡ fault
      go none e = ground arith
      go (some (block r)) e = absurd (missing r e)
      go (some (bytes bs)) e = ground arith
      go (some (iovecs vs)) e = ground arith

  begin_all-Batch :
      (start : Cells) (s : AioStore) (vs : Items) (es : List (ℕ × State)) (c : Cells)
      → Listed start es c
      → Batch kernel start s es c vs (begin_all api kernel es vs (record s { cell = c }))
  unfolding begin_all
  begin_all-Batch start s last es c h = Batch.all_begun es [] c (sym (append-nil es)) (finished c) h
  begin_all-Batch start s (item v vs) es c h =
      let t : AioStore = record s { cell = c } in
      let p = address s.uds v in
      rw (testcookie-address v t) (elim (Bool-cases (p == 0)) [
        | inl null ↦
            rw (null, rollback_states-Listed start es t h)
              (Batch.put_back (here c v vs (ground arith)))
        | inr there ↦ rw there (
            let ne : p ≢ 0 = ground arith in
            elim (block-cases c p) [
              | inl (r, at) ↦ rw (load_block-done t ne at) (elim (begin_entry-eq r) [
                | inl (e, ok) ↦
                    rw (e, store_block-done t ne at (record r { state = pending }))
                      (Batch-begins kernel start s es c v vs r ne at ok _ (
                        begin_all-Batch start s vs (es ++ (p, r.state) ∷ [])
                          (update c p (some (block (record r { state = pending }))))
                          (Listed-append start es c p r h ne at (ground arith))))
                | inr (e, no_entry) ↦
                    rw
                      (
                        e,
                        store_block-done t ne at r,
                        with_block-same t ne at,
                        add-one (entry_count es),
                        rollback_states-more start es t h,
                      )
                      (Batch.broken (here c v vs (refused r ne at no_entry)))
              ])
              | inr missing ↦
                  rw (load_block-dangling t p missing)
                    (Batch.broken (here c v vs (dangling ne missing)))
            ])
      ])

  -- How the loop ends from its start.
  pub data Walk (s : AioStore) (vs : Items) : Run AioStore (List (ℕ × State)) → Type 0 where
    all_begun :
        (es : List (ℕ × State)) (c : Cells)
        → Pending kernel s.uds s.cell vs es c
        → Listed s.cell es c
        → Walk s vs (done es (record s { cell = c }))
    put_back :
        StopsAt kernel s.uds (Stray kernel s.uds) s.cell vs
        → Walk s vs (raised (arg_error 2 "invalid aiocb") s)
    broken : StopsAt kernel s.uds (Bad kernel s.uds) s.cell vs → Walk s vs fault

  Batch-Walk :
      (s : AioStore) (vs : Items) (run : Run AioStore (List (ℕ × State)))
      → Batch kernel s.cell s [] s.cell vs run
      → Walk s vs run
  Batch-Walk s vs run (Batch.all_begun all more d eq p h) =
      Walk.all_begun all d (subst (λ es. Pending kernel s.uds s.cell vs es d) (sym eq) p) h
  Batch-Walk s vs run (Batch.put_back p) = Walk.put_back p
  Batch-Walk s vs run (Batch.broken p) = Walk.broken p

  pub begin_all-Walk : (s : AioStore) (vs : Items) → Walk s vs (begin_all api kernel [] vs s)
  begin_all-Walk s vs = Batch-Walk s vs _ (begin_all-Batch s.cell s vs [] s.cell (λ q. refl))
