-- ===== src/Aio/Protocol.antt =====
-- The state of a control block: the transitions that the comment above `enum aiocb_state` in
-- aio/lua_aio.c lists, and those that the functions on the state make.
use flualibs.Common.{◌≡◌, ◌↔◌, ◌⊎◌, Bool, true, false, arith}
use flualibs.Aio.Defs.{
  State, uninit, init, pending, returning, Rcaiocb, rcaiocb_trybeginwrite, rcaiocb_trybeginread,
}

-- The listed transitions.
pub data Valid : State → State → Type 0 where
  begin_read : Valid uninit pending
  read_failed : Valid pending uninit
  begin_write : Valid init pending
  write_failed : Valid pending init
  begin_return : Valid pending returning
  return_succeeded : Valid returning init
  return_failed : Valid returning uninit

abbrev pub AtRest : State → Type 0
AtRest s = (s ≡ uninit) ⊎ (s ≡ init)

-- A block at rest remembers its state in `aio_state`; what a submitted one remembers is at rest.
pub record Remembers (r : Rcaiocb) : Type 0 where
  pub same : AtRest r.state → r.cb.aio_state ≡ r.state
  pub rest : AtRest r.cb.aio_state

-- `rcaiocb_trybeginread` succeeds exactly at rest, then makes the block pending and gives the state to
-- put back; otherwise it changes nothing.
pub trybeginread_lem :
    (r : Rcaiocb)
    → let t = rcaiocb_trybeginread r in
      ((t.0 ≡ true) ↔ AtRest r.state)
      × (t.0 ≡ true → t.1 ≡ record r { state = pending })
      × (t.0 ≡ false → t.1 ≡ r)
      × (t.2 ≡ r.state)
unfolding rcaiocb_trybeginread
trybeginread_lem r = ground arith

-- The states from which a read and a write are admitted.
abbrev pub readable : State → Bool
readable uninit = true
readable init = true
readable pending = false
readable returning = false

abbrev pub writable : State → Bool
writable init = true
writable uninit = false
writable pending = false
writable returning = false

-- A block that is pending if the test passed.
abbrev pub pending_if : Bool → Rcaiocb → Rcaiocb
pending_if true r = record r { state = pending }
pending_if false r = r

-- The two compare-and-exchange operations of `rcaiocb_trybeginread` amount to one test: in the states
-- UNINIT and INIT the block becomes pending, in the others it stays, and `*state` is its old state.
pub trybeginread-eq :
    (r : Rcaiocb)
    → rcaiocb_trybeginread r ≡ (readable r.state, pending_if (readable r.state) r, r.state)
unfolding rcaiocb_trybeginread
trybeginread-eq r = ground arith

pub trybeginwrite-eq :
    (r : Rcaiocb)
    → rcaiocb_trybeginwrite r ≡ (writable r.state, pending_if (writable r.state) r, r.state)
unfolding rcaiocb_trybeginwrite
trybeginwrite-eq r = ground arith

pub readable_of_rest : (s : State) → AtRest s → readable s ≡ true
readable_of_rest s h = ground arith
