-- ===== src/Aio/Disposal/Buffers.antt =====
-- `freeiovecs` of aio/lua_aio.c and the release of a block's buffer: exactly the memory of the buffer
-- is given back.
use flualibs.Common.{
  ℕ, ◌≡◌, ◌≢◌, refl, true, false, Option, some, none, List, [], ◌∷◌, arith, update, ◌==◌,
  if◌then◌else◌, length,
}
use flualibs.Lua.Run.{done}
use flualibs.Heap.{free}
use flualibs.Heap.Cells.{load-done}
use flualibs.Aio.Defs.{Aiocb, Rcaiocb, Obj, iovecs, AioStore}
use flualibs.Aio.Create.{free_bases, freeiovecs}
use flualibs.Aio.Release.{release_buffer}

abbrev pub Cells : Type 0
Cells = ℕ → Option Obj

-- The heap after `free(q)`.
abbrev pub freed : ℕ → Cells → Cells
freed q c = if q == 0 then c else update c q none

-- NULL or allocated memory.
pub data Freeable (c : Cells) (q : ℕ) : Type 0 where
  is_null : q ≡ 0 → Freeable c q
  allocated : {o : Obj} → c q ≡ some o → Freeable c q

abbrev pub freed_bases : List (ℕ × ℕ) → Cells → Cells
freed_bases [] c = c
freed_bases ((base, len) ∷ vs) c = freed_bases vs (freed base c)

-- Each base can be freed once those before it have been.
abbrev pub FreeableBases : List (ℕ × ℕ) → Cells → Type 0
FreeableBases [] c = Unit
FreeableBases ((base, len) ∷ vs) c = Freeable c base × FreeableBases vs (freed base c)

pub free-freed :
    (q : ℕ) (s : AioStore)
    → Freeable s.cell q
    → free q s ≡ done tt (record s { cell = freed q s.cell })
unfolding free
free-freed q s (is_null e) = ground arith
free-freed q s (allocated e) = ground arith

pub free_bases-freed :
    (vs : List (ℕ × ℕ)) (s : AioStore)
    → FreeableBases vs s.cell
    → free_bases (length vs) vs s ≡ done tt (record s { cell = freed_bases vs s.cell })
unfolding free_bases
free_bases-freed [] s h = refl
free_bases-freed ((base, len) ∷ vs) s h =
    rw (free-freed base s h.0) (free_bases-freed vs (record s { cell = freed base s.cell }) h.1)

-- What a block owns besides itself, and the heap without it: a plain buffer, or an array of iovecs
-- with their bases.
pub data Owns (c : Cells) (cb : Aiocb) : Cells → Type 0 where
  plain : cb.is_vector ≡ false → Freeable c cb.buf → Owns c cb (freed cb.buf c)
  vectored :
      (vs : List (ℕ × ℕ)) {o : Obj}
      → cb.is_vector ≡ true
      → cb.buf ≢ 0
      → c cb.buf ≡ some (iovecs vs)
      → cb.nbytes ≡ length vs
      → FreeableBases vs c
      → freed_bases vs c cb.buf ≡ some o
      → Owns c cb (freed cb.buf (freed_bases vs c))

-- `freeiovecs` on an array of as many elements as its count, of which each base is NULL or allocated,
-- frees each base and then the array, and nothing else.
pub freeiovecs-freed :
    (s : AioStore) (q : ℕ) (vs : List (ℕ × ℕ)) {o : Obj}
    → q ≢ 0
    → s.cell q ≡ some (iovecs vs)
    → FreeableBases vs s.cell
    → freed_bases vs s.cell q ≡ some o
    → freeiovecs q (length vs) s ≡ done tt (record s { cell = freed q (freed_bases vs s.cell) })
unfolding freeiovecs
freeiovecs-freed s q vs ne at bases left =
    rw (load-done q s ne at, free_bases-freed vs s bases)
      (free-freed q (record s { cell = freed_bases vs s.cell }) (allocated left))

pub release_buffer-freed :
    (s : AioStore) (r : Rcaiocb) {c : Cells}
    → r.cb.is_local ≡ false
    → Owns s.cell r.cb c
    → release_buffer r s ≡ done tt (record s { cell = c })
unfolding release_buffer
release_buffer-freed s r shared (plain e h) = ground (arith, free-freed r.cb.buf s h)
release_buffer-freed s r shared (vectored vs e ne at n bases left) =
    ground (arith, freeiovecs-freed s r.cb.buf vs ne at bases left)
