-- ===== src/Sys/Uio/Writing.antt =====
-- A write of sys/uio/lua_uio.c: the array of strings, and its release.
use flualibs.Common.{
  ℕ, ◌+◌, ◌≤◌, ◌≡◌, ◌≢◌, refl, ◌∙◌, arith, Bool, Option, none, some, List, [], ◌∷◌, length,
  replicate, set, length-set, length-replicate, update, update_self, update-update, if◌then◌else◌,
  ==-ne, Bool-cases, inl, inr,
}
use flualibs.Common.Int.{ℤ}
use flualibs.Lua.{Value, Items, last, item, length_items}
use flualibs.Lua.Run.{
  Run, LuaError, arg_error, fatal_error, raise, ◌>>◌, done, raised, Api, checkinteger,
}
use flualibs.Utils.{fail, checkfd}
use flualibs.Heap.{alloc, free}
use flualibs.Heap.Cells.{load-done, free-done}
use flualibs.Sys.{Answer, result, failed, strings, Memory}
use flualibs.Sys.Keeps.{Fresh, SameCells, KeepsCells, returns, raises}
use flualibs.Sys.Socket.Filling.{
  all_strings, with_array, with_array-same, with_array-twice, put_string-done,
}
use flualibs.Sys.Socket.Arrays.{with_array-grown, grown}
use flualibs.Sys.Uio.{
  Kernel, fill_wiovecs, checkwiovecs, write_answer, write_from, l_writev, l_pwritev,
}

abbrev problem : ℕ → LuaError
problem idx = arg_error idx "expected strings"

-- The loop fills the array within its bounds, or meets a value that is no string.
fill_wiovecs-eq :
    (idx iov i : ℕ) (vs : Items) (s : Memory) (ss : List (Option (List ℕ)))
    → iov ≢ 0
    → s.cell iov ≡ some (strings ss)
    → i + length_items vs ≤ length ss
    → (ss' : List (Option (List ℕ))) × (fill_wiovecs idx iov i vs s ≡ (
        if all_strings vs
        then done tt (with_array s iov ss')
        else (free iov >> raise (problem idx)) (with_array s iov ss')))
unfolding fill_wiovecs
fill_wiovecs-eq idx iov i last s ss ne at h = (ss, rw (with_array-same s iov ss at) refl)
fill_wiovecs-eq idx iov i (item (Value.string bs) vs) s ss ne at h =
    let ss' = set ss i (some bs) in
    let n : length ss' ≡ length ss = length-set ss i (some bs) in
    let (end, filled) =
      fill_wiovecs-eq idx iov (i + 1) vs (with_array s iov ss') ss' ne (update_self s.cell iov _)
        (omega arith) in
    (
      end,
      rw (put_string-done iov i bs s ne at (omega arith))
          (filled ∙ rw (with_array-twice s iov ss' end) refl),
    )
fill_wiovecs-eq idx iov i (item Value.nil vs) s ss ne at h =
    (ss, rw (with_array-same s iov ss at) refl)
fill_wiovecs-eq idx iov i (item v vs) s ss ne at h = (ss, rw (with_array-same s iov ss at) refl)

abbrev emptied : Memory → Memory
emptied s = record s { cell = update s.cell s.next none; next = s.next + 1 }

emptied-SameCells : {s : Memory} → Fresh s → SameCells s (emptied s)
emptied-SameCells {s} f q = ground (arith, f.unused s.next)

free-grown :
    {s : Memory} (f : Fresh s) (ss : List (Option (List ℕ)))
    → free s.next (grown s ss) ≡ done tt (emptied s)
free-grown {s} f ss =
    rw (free-done s.next (grown s ss) f.not_null (update_self s.cell s.next _), update-update) refl

-- What `checkwiovecs` ends with: the array, or an error and no memory.
data Checked (s : Memory) (r : Run Memory ℕ) : Type 0 where
  checked : (ss : List (Option (List ℕ))) → r ≡ done s.next (grown s ss) → Checked s r
  unchecked : (e : LuaError) (t : Memory) → SameCells s t → r ≡ raised e t → Checked s r

checkwiovecs-Checked :
    (oom : ℕ → Bool) (enomem idx : ℕ) {s : Memory} (f : Fresh s) (v : Value)
    → Checked s (checkwiovecs oom enomem idx v s)
unfolding checkwiovecs alloc
checkwiovecs-Checked oom enomem idx {s} f (Value.table vs fs) =
    let empty : List (Option (List ℕ)) = replicate (length_items vs) none in
    let (ss, filled) =
      fill_wiovecs-eq idx s.next 0 vs (grown s empty) empty f.not_null (update_self s.cell s.next _)
        (omega (arith, length-replicate {0} {A = Option (List ℕ)} (length_items vs) none)) in
    elim (Bool-cases (oom s.next)) [
      | inl full ↦
          unchecked (fatal_error "calloc" enomem) (record s { next = s.next + 1 }) (λ q. refl)
            (rw full refl)
      | inr memory ↦ elim (Bool-cases (all_strings vs)) [
        | inl all ↦
            checked ss (
              rw (memory, ==-ne s.next 0 f.not_null, filled, all, with_array-grown s empty ss) refl)
        | inr stray ↦ unchecked (problem idx) (emptied s) (emptied-SameCells f) (
            rw
              (
                memory,
                ==-ne s.next 0 f.not_null,
                filled,
                stray,
                with_array-grown s empty ss,
                free-grown f ss,
              )
              refl)
      ]
    ]
checkwiovecs-Checked oom enomem idx {s} f Value.nil =
    unchecked (arg_error idx "table expected") s (λ q. refl) refl
checkwiovecs-Checked oom enomem idx {s} f v =
    unchecked (arg_error idx "table expected") s (λ q. refl) refl

module _ (api : Api) (kernel : Kernel) (oom : ℕ → Bool) (enomem : ℕ) (stale : ℕ → ℕ → ℕ)
    {s : Memory} (f : Fresh s) where
  write_answer-KeepsCells :
      (ss : List (Option (List ℕ))) (x : Answer ℤ)
      → KeepsCells s (write_answer api kernel oom enomem stale s.next x (grown s ss))
  write_answer-KeepsCells ss (failed e) =
      returns (fail api e) (emptied s) (emptied-SameCells f) (rw (free-grown f ss) refl)
  write_answer-KeepsCells ss (result n) =
      returns (Value.integer n ∷ []) (emptied s) (emptied-SameCells f) (rw (free-grown f ss) refl)

  write_from-KeepsCells :
      (fd : ℤ) (offset : Option ℤ) (ss : List (Option (List ℕ)))
      → KeepsCells s (write_from api kernel oom enomem stale fd offset s.next (grown s ss))
  write_from-KeepsCells fd offset ss =
      rw (load-done s.next (grown s ss) f.not_null (update_self s.cell s.next _))
        (write_answer-KeepsCells ss (kernel.writev fd offset ss))

  -- Where fresh addresses are unused, writev and pwritev on a descriptor and any other value, and
  -- for pwritev an integer as offset, end with an answer or an error, and keep no memory, whether
  -- calloc fails and whatever the table holds.
  pub writev-pwritev-KeepsCells :
      (a b c : Value) {fd off : ℤ}
      → checkfd api 1 a s ≡ done fd s
      → checkinteger api 3 c s ≡ done off s
      → KeepsCells s (l_writev api kernel oom enomem stale a b s)
        × KeepsCells s (l_pwritev api kernel oom enomem stale a b c s)
  unfolding l_writev l_pwritev
  writev-pwritev-KeepsCells a b c {fd} {off} ea ec = elim (checkwiovecs-Checked oom enomem 2 f b) [
    | checked ss eq ↦ (
      rw (ea, eq) (write_from-KeepsCells fd none ss),
      rw (ea, checkinteger, ec, eq) (write_from-KeepsCells fd (some off) ss),
    )
    | unchecked e t same eq ↦
        (raises e t same (rw (ea, eq) refl), raises e t same (rw (ea, checkinteger, ec, eq) refl))
  ]
