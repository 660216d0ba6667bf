-- ===== src/Aio/Batch.antt =====
-- Functions of aio/lua_aio.c over several requests: `l_suspend`, `l_lio_listio`, and the completion of
-- any request, `l_aio_waitcomplete`.
use Prim.Native.Nat.{bit_and}
use flualibs.Common.{
  ℕ, suc, ◌+◌, Bool, true, false, Option, none, some, List, [], ◌∷◌, ◌++◌, ◌==◌, if◌then◌else◌,
}
use flualibs.Common.Int.{ℤ, pos, to_word, to_int}
use flualibs.Lua.{Value, Items, last, item, Meta}
use flualibs.Lua.Run.{
  Cmd, arg_error, error, pure, raise, undefined, argcheck, Api, checkinteger, optinteger, ◌>>=◌,
  ◌>>◌,
}
use flualibs.Utils.{success, fail, new, testcookie, checkcookie}
use flualibs.Signal.{Sigevent, checksigevent}
use flualibs.Refcount.{refcount_retain}
use flualibs.Aio.Defs.{
  State, pending, state_code, Rcaiocb, AioStore, lio_listio, Answer, result, failed, Kernel, Begun,
  rcaiocb_trybeginwrite, rcaiocb_trybeginread, rcaiocb_rollback, rcaiocb_commit, aiocb_islocal,
  load_block, store_block, modify_block,
}

-- `rollback_states(cbs, states, n)`. The arrays are the pairs of block and state that were written, in
-- their order; an element beyond them was never written, and reading it is undefined.
unfoldable pub rollback_states : ℕ → List (ℕ × State) → Cmd AioStore (Unit {0})
rollback_states ℕ.zero entries = pure tt
rollback_states (suc n) [] = undefined
rollback_states (suc n) ((p, state) ∷ entries) = do
  modify_block p (λ r. rcaiocb_rollback r state)
  rollback_states n entries

abbrev pub entry_count : List (ℕ × State) → ℕ
entry_count [] = 0
entry_count (e ∷ es) = suc (entry_count es)

module _ (api : Api) (kernel : Kernel) where
  abbrev pub begin_entry : Rcaiocb → Begun
  begin_entry r =
      if bit_and (to_word 32 r.cb.lio_opcode) kernel.lio_read == 0
      then rcaiocb_trybeginwrite r
      else rcaiocb_trybeginread r

  -- The body of the loop after `trybegin`: where it is refused, `states[i]` is written and `cbs[i]` is
  -- not, so that the rollback of `i + 1` elements reads past what was written.
  abbrev pub enter : List (ℕ × State) → ℕ → Begun → Cmd AioStore (List (ℕ × State))
  enter entries p (ok, r, state) = do
    store_block p r
    if ok then pure (entries ++ (p, state) ∷ []) else (do
      rollback_states (entry_count entries + 1) entries
      raise (arg_error 2 "buffer not initialized"))

  -- The loop of `l_lio_listio`, with the elements of `cbs` and `states` written so far.
  unfoldable pub begin_all : List (ℕ × State) → Items → Cmd AioStore (List (ℕ × State))
  unfolding rollback_states
  begin_all entries last = pure entries
  begin_all entries (item v vs) = do
    p ← testcookie Meta.aiocb v
    if p == 0
        then (do rollback_states (entry_count entries) entries; raise (arg_error 2 "invalid aiocb"))
        else (do r ← load_block p; more ← enter entries p (begin_entry r); begin_all more vs)

  -- The timeout is passed to the kernel, whose answer is a parameter.
  abbrev pub timeout : ℕ → Value → Value → Cmd AioStore (Option (ℤ × ℤ))
  timeout i Value.nil nsec = pure none
  timeout i Value.absent nsec = pure none
  timeout i sec nsec = do
    a ← checkinteger api i sec
    b ← optinteger api (i + 1) nsec (pos 0)
    pure (some (a, b))

  abbrev checktable : Value → Cmd AioStore Items
  checktable (Value.table vs fs) = pure vs
  checktable v = raise (arg_error 1 "table expected")

  -- The loop of `l_suspend`: an element that is no block or a block that is not pending is an error.
  unfoldable pub pending_all : Items → Cmd AioStore (List ℕ)
  pending_all last = pure []
  pending_all (item v vs) = do
    p ← checkcookie 1 Meta.aiocb v
    r ← load_block p
    argcheck (state_code r.state == state_code pending) 1 "buffer not pending"
    ps ← pending_all vs
    pure (p ∷ ps)

  abbrev pub waited : Answer → Cmd AioStore (List Value)
  waited (result n) = pure success
  waited (failed e) = pure (fail api e)

  -- `aio.suspend(cbs, sec, nsec)`: the kernel is asked about the whole list.
  unfoldable pub l_suspend :
      (suspend : List ℕ → Option (ℤ × ℤ) → Answer)
      → (cbs sec nsec : Value) → Cmd AioStore (List Value)
  unfolding pending_all
  l_suspend suspend cbs sec nsec = do
    vs ← checktable cbs
    t ← timeout 2 sec nsec
    ps ← pending_all vs
    waited (suspend ps t)

  unfoldable pub l_aio_suspend :
      (suspend : List ℕ → Option (ℤ × ℤ) → Answer)
      → (cb sec nsec : Value) → Cmd AioStore (List Value)
  l_aio_suspend suspend cb sec nsec = do
    p ← checkcookie 1 Meta.aiocb cb
    r ← load_block p
    argcheck (state_code r.state == state_code pending) 1 "buffer not pending"
    t ← timeout 2 sec nsec
    waited (suspend (p ∷ []) t)

  abbrev pub blocks_of : List (ℕ × State) → List ℕ
  blocks_of [] = []
  blocks_of ((p, state) ∷ entries) = p ∷ blocks_of entries

  abbrev pub listed : List (ℕ × State) → Answer → Cmd AioStore (List Value)
  listed entries (result n) = pure success
  listed entries (failed e) = do rollback_states (entry_count entries) entries; pure (fail api e)

  abbrev optional_sigevent : Value → Cmd AioStore (Option Sigevent)
  optional_sigevent Value.nil = pure none
  optional_sigevent Value.absent = pure none
  optional_sigevent v = do e ← checksigevent api 4 v; pure (some e)

  abbrev is_table : Value → Bool
  is_table (Value.table vs fs) = true
  is_table v = false

  -- `luaL_len` and `lua_geti`.
  abbrev items_of : Value → Cmd AioStore Items
  items_of (Value.table vs fs) = pure vs
  items_of v = elim (api.sequence v) [
    | none ↦ raise (error "object length is not an integer")
    | some vs ↦ pure vs
  ]

  unfoldable pub l_lio_listio : (mode cbs third sig : Value) → Cmd AioStore (List Value)
  unfolding begin_all
  l_lio_listio mode cbs third sig = do
    m ← checkinteger api 1 mode
    argcheck (is_table third) 3 "table expected"
    e ← optional_sigevent sig
    vs ← items_of cbs
    entries ← begin_all [] vs
    listed entries (kernel.call (lio_listio (to_int m) (blocks_of entries) e))

  abbrev retained : Rcaiocb → Rcaiocb
  retained r = record r { refs = refcount_retain r.refs }

  abbrev complete : ℕ → Value → Answer → Cmd AioStore (List Value)
  complete p u (failed e) = do
    modify_block p (λ r. rcaiocb_rollback r r.cb.aio_state)
    pure (u ∷ fail api e)
  complete p u (result n) = do modify_block p rcaiocb_commit; pure (u ∷ Value.integer (pos n) ∷ [])

  abbrev nothing_completed : Answer → Cmd AioStore (List Value)
  nothing_completed (failed e) = pure (fail api e)
  nothing_completed (result n) = undefined

  -- `aio_waitcomplete` stores NULL only when it fails without a request.
  unfoldable pub l_aio_waitcomplete : (sec nsec : Value) → Cmd AioStore (List Value)
  l_aio_waitcomplete sec nsec = do
    t ← timeout 1 sec nsec
    let (p, answer) = kernel.completed
    if p == 0 then nothing_completed answer else do
      r ← load_block p
      if aiocb_islocal r.cb
          then raise (error "TODO")
          else do modify_block p retained; u ← new p Meta.aiocb; complete p u answer
