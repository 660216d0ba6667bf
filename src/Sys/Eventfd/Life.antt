-- ===== src/Sys/Eventfd/Life.antt =====
-- The methods of sys/eventfd/lua_eventfd.c on one userdata, as operations on an abstract
-- descriptor.
use flualibs.Common.{
  ℕ, ◌<◌, ◌≡◌, refl, Option, none, some, List, [], ◌∷◌, map, length, true, Option-cases, inl, inr,
}
use flualibs.Common.Int.{ℤ, to_int, to_word, of_word}
use flualibs.Lua.{Value, Meta, same_meta, Userdata, Store}
use flualibs.Lua.Run.{arg_error, Api, checkinteger, pure}
use flualibs.Utils.{success, fail}
use flualibs.Sys.{Answer, result, failed, answered}
use flualibs.Sys.Descriptor.{World}
use flualibs.Sys.Descriptor.Refinement.{
  Outcome, returned, refused, State, Operation, Handler, on_open, close_operation, operate, calls,
  represents, Implements, calls-operate, with_filedesc, checknil-represents, close_value-Implements,
  outcome_run,
}
use flualibs.Sys.Eventfd.{
  Kernel, l_eventfd_close, l_eventfd_fileno, l_eventfd_read, l_eventfd_write,
}

-- The methods; `close` is also the finaliser.
pub data Method : Type 0 where
  close fileno read : Method
  write : Value → Method

module _ {K : Type 0} (api : Api) (kernel : Kernel K) where
  abbrev pub handler : Method → Handler K
  handler close = l_eventfd_close api kernel
  handler fileno = l_eventfd_fileno api kernel
  handler read = l_eventfd_read api kernel
  handler (write w) = λ v. l_eventfd_write api kernel v w

  abbrev pub read_outcome : Answer ℕ × K → Outcome × K
  read_outcome (result n, k) = (returned (Value.integer (of_word 64 n) ∷ []), k)
  read_outcome (failed e, k) = (returned (fail api e), k)

  abbrev pub write_outcome : Answer (Unit {0}) × K → Outcome × K
  write_outcome (result u, k) = (returned success, k)
  write_outcome (failed e, k) = (returned (fail api e), k)

  -- The value that is written must be an integer.
  abbrev pub write_value : Option ℤ → ℤ → K → Outcome × K
  write_value none fd k = (refused (arg_error 2 "number expected"), k)
  write_value (some n) fd k = write_outcome (kernel.eventfd_write fd (to_word 64 n) k)

  abbrev pub operation : Method → Operation K
  operation close = close_operation api kernel.close
  operation fileno =
      on_open "invalid eventfd (closed)" (λ fd k. (returned (Value.integer fd ∷ []), k))
  operation read =
      on_open "invalid eventfd (closed)" (λ fd k. read_outcome (kernel.eventfd_read fd k))
  operation (write w) = on_open "invalid eventfd (closed)" (write_value (api.to_integer w))

  module _ (kind : Userdata) (base : Store (Unit {0})) (u : ℕ) (at : u < length base.uds)
      (same : same_meta kind.meta Meta.eventfd ≡ true)
      (exact : (n : ℤ) → api.to_integer (Value.integer n) ≡ some n) where
    abbrev held : State K → World K
    held st = represents (with_filedesc kind) base u st

    read-Implements :
        (n : ℤ) (k : K) (x : Answer ℕ × K)
        → answered api (x.0) (λ n. pure (Value.integer (of_word 64 n) ∷ [])) (held (some n, x.1))
          ≡ outcome_run
              (with_filedesc kind)
              base
              u
              ((read_outcome x).0, (some n, (read_outcome x).1))
    read-Implements n k (result m, k') = refl
    read-Implements n k (failed e, k') = refl

    write-Implements :
        (n : ℤ) (x : Answer (Unit {0}) × K)
        → answered api (x.0) (λ a. pure success) (held (some n, x.1))
          ≡ outcome_run
              (with_filedesc kind)
              base
              u
              ((write_outcome x).0, (some n, (write_outcome x).1))
    write-Implements n (result m, k') = refl
    write-Implements n (failed e, k') = refl

    handler-operation :
        (m : Method) → Implements (with_filedesc kind) base u (handler m) (operation m)
    unfolding l_eventfd_close l_eventfd_fileno l_eventfd_read l_eventfd_write
    handler-operation close st =
        close_value-Implements kind base u at api Meta.eventfd kernel.close same exact st
    handler-operation fileno (none, k) =
        rw (checknil-represents kind base u at Meta.eventfd 1 (none, k) same) refl
    handler-operation fileno (some n, k) =
        rw (checknil-represents kind base u at Meta.eventfd 1 (some n, k) same) refl
    handler-operation read (none, k) =
        rw (checknil-represents kind base u at Meta.eventfd 1 (none, k) same) refl
    handler-operation read (some n, k) =
        rw (checknil-represents kind base u at Meta.eventfd 1 (some n, k) same)
          (read-Implements n k (kernel.eventfd_read (to_int n) k))
    handler-operation (write w) (none, k) =
        rw (checknil-represents kind base u at Meta.eventfd 1 (none, k) same) refl
    handler-operation (write w) (some n, k) = elim (Option-cases (api.to_integer w)) [
      | inl e ↦
          rw (checknil-represents kind base u at Meta.eventfd 1 (some n, k) same, checkinteger, e)
            refl
      | inr (v, e) ↦
          rw (checknil-represents kind base u at Meta.eventfd 1 (some n, k) same, checkinteger, e)
            (write-Implements n (kernel.eventfd_write (to_int n) (to_word 64 v) k))
    ]

    -- In every sequence of calls of close, fileno, read and write on one eventfd, each protected,
    -- the calls answer and raise what the operations on an abstract descriptor give, which is
    -- open with a number or closed: closing succeeds on a closed one without the kernel, what the
    -- kernel does not close stays open, and the others raise an error on a closed one. The other
    -- userdata stay as they are.
    pub calls-operate_eventfd :
        (ms : List Method) (st : State K)
        → calls (map handler ms) (Value.userdata u) (represents (with_filedesc kind) base u st)
          ≡ some (
            (operate (map operation ms) st).0,
            represents (with_filedesc kind) base u (operate (map operation ms) st).1,
          )
    calls-operate_eventfd ms st =
        calls-operate (with_filedesc kind) base u handler operation handler-operation ms st

    abbrev closed_error : Outcome
    closed_error = refused (arg_error 1 "invalid eventfd (closed)")

    operate-closed :
        (ms : List Method) (k : K)
        → (os : List Outcome) × (operate (map operation ms) (none, k) ≡ (os, (none, k)))
    operate-closed [] k = ([], refl)
    operate-closed (close ∷ ms) k =
        let (os, e) = operate-closed ms k in (returned success ∷ os, rw e refl)
    operate-closed (fileno ∷ ms) k =
        let (os, e) = operate-closed ms k in (closed_error ∷ os, rw e refl)
    operate-closed (read ∷ ms) k =
        let (os, e) = operate-closed ms k in (closed_error ∷ os, rw e refl)
    operate-closed (write w ∷ ms) k =
        let (os, e) = operate-closed ms k in (closed_error ∷ os, rw e refl)

    -- Whatever is called on a closed eventfd, and how often, the kernel is not reached and the
    -- userdata stays closed.
    pub calls-closed :
        (ms : List Method) (k : K)
        → (os : List Outcome) × (calls
              (map handler ms)
              (Value.userdata u)
              (represents (with_filedesc kind) base u (none, k))
            ≡ some (os, represents (with_filedesc kind) base u (none, k)))
    calls-closed ms k =
        let (os, e) = operate-closed ms k in (os, rw (calls-operate_eventfd ms (none, k), e) refl)
