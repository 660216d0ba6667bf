-- ===== src/Aio/Submit.antt =====
-- The methods of aio/lua_aio.c that submit a request, ask for its status or cancel it.
use flualibs.Common.{ℕ, Bool, true, false, String, List, [], ◌∷◌, ◌==◌}
use flualibs.Common.Int.{ℤ, pos, to_int}
use flualibs.Lua.{Value, Meta}
use flualibs.Lua.Run.{Cmd, pure, argcheck, Api, checkinteger, optinteger, ◌>>=◌, ◌>>◌}
use flualibs.Utils.{success, fail, new, checkfd, checklightuserdata, checkcookieuv, checkcookie}
use flualibs.Refcount.{refcount_retain}
use flualibs.Aio.Defs.{
  State, pending, state_code, Rcaiocb, AioStore, Call, aio_read2, aio_readv, aio_write2, aio_writev,
  aio_mlock, aio_fsync, aio_return, aio_error, aio_cancel, Answer, result, failed, Kernel, Begun,
  rcaiocb_trybeginwrite, rcaiocb_trybeginread, rcaiocb_trybeginreturn, rcaiocb_rollback,
  rcaiocb_commit, aiocb_isshared, aiocb_isvector, load_block, store_block, modify_block,
}

-- The system call for a read or a write of a plain or a vectored buffer. The flags become an int.
abbrev pub read_call : ℕ → Bool → ℤ → Call
read_call p true flags = aio_readv p
read_call p false flags = aio_read2 p (to_int flags)

abbrev pub write_call : ℕ → Bool → ℤ → Call
write_call p true flags = aio_writev p
write_call p false flags = aio_write2 p (to_int flags)

module _ (api : Api) (kernel : Kernel) where
  -- The end of each submission: the answer of the system call, with the state put back on failure.
  abbrev pub submitted : ℕ → State → Answer → Cmd AioStore (List Value)
  submitted p state (result n) = pure success
  submitted p state (failed e) = do
    modify_block p (λ r. rcaiocb_rollback r state)
    pure (fail api e)

  -- Submission after `trybegin`: its results are stored, and a refusal is an argument error.
  abbrev pub submit : ℕ → String → Begun → Call → Cmd AioStore (List Value)
  submit p what (ok, r, state) c = do
    store_block p r
    argcheck ok 1 what
    submitted p state (kernel.call c)

  unfoldable pub l_aio_read : (cb flags : Value) → Cmd AioStore (List Value)
  l_aio_read cb flags = do
    p ← checkcookie 1 Meta.aiocb cb
    n ← optinteger api 2 flags (pos 0)
    r ← load_block p
    argcheck (aiocb_isshared r.cb) 1 "const aiocb buffer"
    submit p "buffer not available" (rcaiocb_trybeginread r) (read_call p (aiocb_isvector r.cb) n)

  unfoldable pub l_aio_write : (cb flags : Value) → Cmd AioStore (List Value)
  l_aio_write cb flags = do
    p ← checkcookie 1 Meta.aiocb cb
    n ← optinteger api 2 flags (pos 0)
    r ← load_block p
    submit p "buffer not available" (rcaiocb_trybeginwrite r) (write_call p (aiocb_isvector r.cb) n)

  unfoldable pub l_aio_mlock : (cb : Value) → Cmd AioStore (List Value)
  l_aio_mlock cb = do
    p ← checkcookie 1 Meta.aiocb cb
    r ← load_block p
    submit p "buffer not available" (rcaiocb_trybeginwrite r) (aio_mlock p)

  unfoldable pub l_aio_fsync : (cb op : Value) → Cmd AioStore (List Value)
  l_aio_fsync cb op = do
    p ← checkcookie 1 Meta.aiocb cb
    n ← checkinteger api 2 op
    r ← load_block p
    submit p "buffer not available" (rcaiocb_trybeginwrite r) (aio_fsync (to_int n) p)

  abbrev pub returned : ℕ → Rcaiocb → Answer → Cmd AioStore (List Value)
  returned p r (failed e) = do
    modify_block p (λ r. rcaiocb_rollback r r.cb.aio_state)
    pure (fail api e)
  returned p r (result n) = do modify_block p rcaiocb_commit; pure (Value.integer (pos n) ∷ [])

  abbrev pub return_after : ℕ → Begun → Cmd AioStore (List Value)
  return_after p (ok, r, state) = do
    store_block p r
    argcheck ok 1 "buffer not pending"
    returned p r (kernel.call (aio_return p))

  unfoldable pub l_aio_return : (cb : Value) → Cmd AioStore (List Value)
  l_aio_return cb = do
    p ← checkcookie 1 Meta.aiocb cb
    r ← load_block p
    return_after p (rcaiocb_trybeginreturn r)

  abbrev pub status : Answer → Cmd AioStore (List Value)
  status (failed e) = pure (fail api e)
  status (result n) = pure (Value.integer (pos n) ∷ [])

  -- `aio_error` gives the errno of the request, which is pushed behind its text.
  abbrev error_status : Answer → Cmd AioStore (List Value)
  error_status (failed e) = pure (fail api e)
  error_status (result n) = pure (Value.string (api.strerror n) ∷ Value.integer (pos n) ∷ [])

  unfoldable pub l_aio_error : (cb : Value) → Cmd AioStore (List Value)
  l_aio_error cb = do
    p ← checkcookie 1 Meta.aiocb cb
    r ← load_block p
    error_status (kernel.call (aio_error p))

  -- `aio.cancel(fd)` cancels every request of the descriptor.
  unfoldable pub l_cancel : (fd : Value) → Cmd AioStore (List Value)
  l_cancel fd = do n ← checkfd api 1 fd; status (kernel.call (aio_cancel n 0))

  unfoldable pub l_aio_cancel : (cb : Value) → Cmd AioStore (List Value)
  l_aio_cancel cb = do
    p ← checkcookie 1 Meta.aiocb cb
    r ← load_block p
    argcheck (state_code r.state == state_code pending) 1 "buffer not pending"
    status (kernel.call (aio_cancel r.cb.fildes p))

unfoldable pub l_aiocb_cookie : (cb : Value) → Cmd AioStore (List Value)
l_aiocb_cookie cb = do cookie ← checkcookieuv 1 Meta.aiocb cb; pure (Value.light cookie ∷ [])

abbrev retained : Rcaiocb → Rcaiocb
retained r = record r { refs = refcount_retain r.refs }

unfoldable pub l_aiocb_retain : (cookie : Value) → Cmd AioStore (List Value)
l_aiocb_retain cookie = do
  p ← checklightuserdata 1 cookie
  r ← load_block p
  argcheck (aiocb_isshared r.cb) 1 "aiocb not shareable"
  modify_block p retained
  u ← new p Meta.aiocb
  pure (u ∷ [])

unfoldable pub l_aiocb_eq : (a b : Value) → Cmd AioStore (List Value)
l_aiocb_eq a b = do
  p ← checkcookie 1 Meta.aiocb a
  q ← checkcookie 2 Meta.aiocb b
  pure (Value.boolean (p == q) ∷ [])
