-- ===== src/Aio/Create.antt =====
-- Buffers and the creation of a control block: `freeiovecs`, `checkiovecs`, `checkbuf`,
-- `l_aiocb_shared` of aio/lua_aio.c.
use flualibs.Common.{
  ℕ, zero, suc, ◌+◌, Bool, true, false, Option, none, some, List, [], ◌∷◌, map, ◌==◌, if◌then◌else◌,
  length, replicate, set,
}
use flualibs.Common.Int.{ℤ, pos, to_word, to_int}
use flualibs.Lua.{Value, Items, last, item, length_items, Meta}
use flualibs.Lua.Run.{
  Cmd, arg_error, pure, raise, undefined, Api, checkinteger, optinteger, ◌>>=◌, ◌>>◌,
}
use flualibs.Utils.{fatal, new, checkfd}
use flualibs.Heap.{alloc, load, store, free}
use flualibs.Refcount.{refcount_init}
use flualibs.Signal.{Sigevent, checksigevent}
use flualibs.Aio.Defs.{
  uninit, Rcaiocb, Obj, block, bytes, iovecs, AioStore, rcaiocb_commit, modify_block,
}

abbrev pub as_iovecs : Obj → Cmd AioStore (List (ℕ × ℕ))
as_iovecs (block r) = undefined
as_iovecs (bytes bs) = undefined
as_iovecs (iovecs vs) = pure vs

-- The bases of the first `n` elements are released; fewer elements would be read out of bounds.
unfoldable pub free_bases : ℕ → List (ℕ × ℕ) → Cmd AioStore (Unit {0})
free_bases zero vs = pure tt
free_bases (suc n) [] = undefined
free_bases (suc n) ((base, len) ∷ vs) = do free base; free_bases n vs

unfoldable pub freeiovecs : ℕ → ℕ → Cmd AioStore (Unit {0})
unfolding free_bases
freeiovecs iov iovcnt = do o ← load iov; vs ← as_iovecs o; free_bases iovcnt vs; free iov

-- A buffer description: the bytes to copy, if there are any, and the length as a size_t.
abbrev pub description : Value → Option (Option (List ℕ) × ℕ)
description (Value.string bs) = some (some bs, length bs)
description (Value.integer n) = some (none, to_word 64 n)
description v = none

-- The memory after `malloc` and the `memcpy` of what there is to copy.
abbrev pub contents : Option (List ℕ) → ℕ → List (Option ℕ)
contents none len = replicate len none
contents (some bs) len = map some bs

abbrev pub initialised : Option (List ℕ) → ℕ
initialised none = 0
initialised (some bs) = 1

module _ (oom : ℕ → Bool) (enomem : ℕ) where
  -- The loop of `checkiovecs` from element `i` on, over the `iovcnt` elements at `iov`; it gives the
  -- number of elements with initial contents.
  unfoldable pub fill_iovecs : (idx iov iovcnt i ninit : ℕ) → Items → Cmd AioStore ℕ
  fill_iovecs idx iov iovcnt i ninit last = pure ninit
  fill_iovecs idx iov iovcnt i ninit (item v vs) = elim (description v) [
    | none ↦ freeiovecs iov iovcnt >> raise (arg_error idx "invalid buffer description")
    | some (start, len) ↦ do
      base ← alloc oom (bytes (contents start len))
      if base == 0 then freeiovecs iov iovcnt >> fatal "malloc" enomem else do
        o ← load iov
        elems ← as_iovecs o
        store iov (iovecs (set elems i (base, len)))
        fill_iovecs idx iov iovcnt (i + 1) (ninit + initialised start) vs
  ]

  abbrev set_iovecs : ℕ → ℕ → Rcaiocb → Rcaiocb
  set_iovecs iov iovcnt r = record r {
    cb = record (r.cb) { buf = iov; nbytes = iovcnt; is_vector = true };
  }

  unfoldable pub checkiovecs : ℕ → Value → ℕ → Cmd AioStore (Unit {0})
  unfolding fill_iovecs
  checkiovecs idx (Value.table vs fs) p = do
    iov ← alloc oom (iovecs (replicate (length_items vs) (0, 0)))
    if iov == 0 then fatal "calloc" enomem else do
      ninit ← fill_iovecs idx iov (length_items vs) 0 0 vs
      if ninit == 0
          then pure tt
          else (if ninit == length_items vs
              then modify_block p rcaiocb_commit
              else freeiovecs iov (length_items vs)
                >> raise (arg_error idx "invalid buffer description"))
      modify_block p (set_iovecs iov (length_items vs))
  checkiovecs idx v p = raise (arg_error idx "table expected")

  abbrev set_buf : ℕ → ℕ → Rcaiocb → Rcaiocb
  set_buf base len r = record r { cb = record (r.cb) { buf = base; nbytes = len } }

  abbrev commit_if : Option (List ℕ) → ℕ → Cmd AioStore (Unit {0})
  commit_if none p = pure tt
  commit_if (some bs) p = modify_block p rcaiocb_commit

  unfoldable pub checkbuf : ℕ → Value → ℕ → Cmd AioStore (Unit {0})
  checkbuf idx v p = elim (description v) [
    | none ↦ raise (arg_error idx "invalid buffer description")
    | some (start, len) ↦ do
      base ← alloc oom (bytes (contents start len))
      if base == 0
          then fatal "malloc" enomem
          else do commit_if start p; modify_block p (set_buf base len)
  ]

  abbrev set_target : ℤ → Rcaiocb → Rcaiocb
  set_target fd r = record r { cb = record (r.cb) { fildes = fd } }

  abbrev set_offset : ℤ → Rcaiocb → Rcaiocb
  set_offset n r = record r { cb = record (r.cb) { offset = n } }

  abbrev set_opcode : ℤ → Rcaiocb → Rcaiocb
  set_opcode n r = record r { cb = record (r.cb) { lio_opcode = n } }

  abbrev set_sigevent : Sigevent → Rcaiocb → Rcaiocb
  set_sigevent e r = record r { cb = record (r.cb) { sigevent = e } }

  abbrev buffer_of : Value → ℕ → Cmd AioStore (Unit {0})
  buffer_of Value.nil p = modify_block p rcaiocb_commit
  buffer_of Value.absent p = modify_block p rcaiocb_commit
  buffer_of (Value.table vs fs) p = checkiovecs 3 (Value.table vs fs) p
  buffer_of v p = checkbuf 3 v p

  abbrev sigevent_at : Api → Value → ℕ → Cmd AioStore (Unit {0})
  sigevent_at api Value.nil p = pure tt
  sigevent_at api Value.absent p = pure tt
  sigevent_at api v p = do e ← checksigevent api 5 v; modify_block p (set_sigevent e)

  -- What `calloc` and `refcount_init` make.
  abbrev pub fresh_block : Rcaiocb
  fresh_block = record {
    cb = record {
      fildes = pos 0;
      offset = pos 0;
      buf = 0;
      nbytes = 0;
      lio_opcode = pos 0;
      sigevent = [];
      is_local = false;
      is_vector = false;
      aio_state = uninit;
    };
    refs = refcount_init 1;
    state = uninit;
  }

  unfoldable pub l_aiocb_shared :
      Api → (fd offset desc opcode sig : Value) → Cmd AioStore (List Value)
  l_aiocb_shared api fd offset desc opcode sig = do
    p ← alloc oom (block fresh_block)
    if p == 0 then fatal "calloc" enomem else do
      u ← new p Meta.aiocb
      n ← checkfd api 1 fd
      modify_block p (set_target n)
      off ← checkinteger api 2 offset
      modify_block p (set_offset off)
      buffer_of desc p
      op ← optinteger api 4 opcode (pos 0)
      modify_block p (set_opcode (to_int op))
      sigevent_at api sig p
      pure (u ∷ [])
