-- ===== src/Sys/Event/Changes.antt =====
-- The list of changes of a kevent of sys/event/lua_event.c: how its loop ends, and what is left
-- of it.
use flualibs.Common.{
  ℕ, ◌+◌, ◌≤◌, ◌≡◌, ◌≢◌, refl, get_elem?, arith, Bool, true, false, Option, none, some, List,
  length, replicate, set, length-set, length-replicate, update, update_self, ltb, ==-ne, String,
}
use flualibs.Lua.{
  Value, Items, last, item, length_items, Fields, getfield, Meta, same_meta, Userdata,
}
use flualibs.Lua.Run.{Run, Cmd, LuaError, done, raised, Api, ◌>>=◌}
use flualibs.Utils.Cookies.{checkudata-done}
use flualibs.Heap.{alloc}
use flualibs.Heap.Cells.{load-done, store-done}
use flualibs.Sys.Event.{
  Kevent, Queue, Polled, event, unpolled, miscounted, Kernel, change, set_change, fill_changes,
  polled, l_kevent, number, optional, identity, coroutine,
}

-- A check gives a value or raises an error, and changes nothing.
data Pure {A : Type 0} (m : Cmd Queue A) : Type 0 where
  gives : (a : A) → ((s : Queue) → m s ≡ done a s) → Pure m
  refuses : (e : LuaError) → ((s : Queue) → m s ≡ raised e s) → Pure m

>>=-Pure :
    {A B : Type 0} (m : Cmd Queue A) (f : A → Cmd Queue B)
    → Pure m
    → ((a : A) → Pure (f a))
    → Pure (m >>= f)
>>=-Pure m f (refuses e h) k = refuses e (λ s. rw (h s) refl)
>>=-Pure m f (gives a h) k = elim (k a) [
  | gives b h' ↦ gives b (λ s. rw (h s) (h' s))
  | refuses e h' ↦ refuses e (λ s. rw (h s) (h' s))
]

done-Pure : {A : Type 0} (a : A) → Pure {A = A} (λ s. done a s)
done-Pure a = gives a (λ s. refl)

number-Pure : (what : String) (v : Value) → Pure (number what v)
number-Pure what (Value.integer n) = gives n (λ s. refl)
number-Pure what (Value.float none) = gives _ (λ s. refl)
number-Pure what (Value.float (some n)) = gives n (λ s. refl)
number-Pure what Value.nil = refuses _ (λ s. refl)
number-Pure what v = refuses _ (λ s. refl)

optional-Pure : (what : String) (v : Value) → Pure (optional what v)
optional-Pure what Value.nil = gives _ (λ s. refl)
optional-Pure what (Value.integer n) = gives n (λ s. refl)
optional-Pure what v = refuses _ (λ s. refl)

coroutine-Pure : (v : Value) → Pure (coroutine v)
coroutine-Pure Value.nil = gives _ (λ s. refl)
coroutine-Pure (Value.thread l) = gives l (λ s. refl)
coroutine-Pure v = refuses _ (λ s. refl)

identity-Pure : (cookie v : Value) → Pure (identity cookie v)
identity-Pure (Value.light p) v = gives p (λ s. refl)
identity-Pure Value.nil v = >>=-Pure _ _ (number-Pure _ v) (λ n. done-Pure _)
identity-Pure cookie v = >>=-Pure _ _ (number-Pure _ v) (λ n. done-Pure _)

change-Pure : (v : Value) → Pure (change v)
unfolding change
change-Pure (Value.table vs fs) =
    >>=-Pure _ _ (identity-Pure (getfield fs "cookie") (getfield fs "ident")) λ ident.
      >>=-Pure _ _ (number-Pure "`changelist' invalid filter" (getfield fs "filter")) λ filter.
        >>=-Pure _ _ (number-Pure "`changelist' invalid flags" (getfield fs "flags")) λ flags.
          >>=-Pure _ _ (optional-Pure "`changelist' invalid fflags" (getfield fs "fflags"))
            λ fflags.
              >>=-Pure _ _ (optional-Pure "`changelist' invalid data" (getfield fs "data"))
                λ payload. >>=-Pure _ _ (coroutine-Pure (getfield fs "udata")) λ udata. done-Pure _
change-Pure Value.nil = refuses _ (λ s. refl)
change-Pure v = refuses _ (λ s. refl)

-- The call ends, and the list at `p` is still allocated.
pub data KeepsList {A : Type 0} (p : ℕ) (r : Run Queue A) : Type 0 where
  returns_with :
      (a : A) (changes : List (Option Kevent)) (t : Queue)
      → t.cell p ≡ some changes
      → r ≡ done a t
      → KeepsList p r
  raises_with :
      (e : LuaError) (changes : List (Option Kevent)) (t : Queue)
      → t.cell p ≡ some changes
      → r ≡ raised e t
      → KeepsList p r

fill_changes-KeepsList :
    (p i : ℕ) (vs : Items) (s : Queue) (changes : List (Option Kevent))
    → p ≢ 0
    → s.cell p ≡ some changes
    → i + length_items vs ≤ length changes
    → KeepsList p (fill_changes p i vs s)
unfolding fill_changes set_change
fill_changes-KeepsList p i last s changes ne at h = returns_with tt changes s at refl
fill_changes-KeepsList p i (item v vs) s changes ne at h = elim (change-Pure v) [
  | refuses e eq ↦ raises_with e changes s at (rw (eq s) refl)
  | gives e eq ↦
      let inside : ltb i (length changes) ≡ true = ground arith in
      let changes' : List (Option Kevent) = set changes i (some e) in
      let n : length changes' ≡ length changes = length-set changes i (some e) in
      rw (eq s, load-done p s ne at, inside, store-done p s ne at changes')
        (fill_changes-KeepsList p (i + 1) vs (record s { cell = update s.cell p (some changes') })
          changes' ne (update_self s.cell p _) (omega arith))
]

module _ (api : Api) (kernel : Kernel) (oom : ℕ → Bool) (enomem : ℕ) where
  polled-KeepsList :
      (p : ℕ) (x : Polled) (changes : List (Option Kevent)) (t : Queue)
      → t.cell p ≡ some changes
      → KeepsList p (polled api kernel oom enomem x t)
  polled-KeepsList p (event e) changes t at = returns_with _ changes t at refl
  polled-KeepsList p (unpolled e) changes t at = returns_with _ changes t at refl
  polled-KeepsList p miscounted changes t at = raises_with _ changes t at refl

  -- A kevent on a queue, with a table of changes and memory for the list, ends, whatever the
  -- elements are and whatever the kernel answers, and the list is still allocated then.
  pub l_kevent-KeepsList :
      (s : Queue) (u : ℕ) (vs : Items) (fs : Fields) {d : Userdata}
      → get_elem? s.uds u ≡ some d
      → same_meta d.meta Meta.kqueue ≡ true
      → s.next ≢ 0
      → oom s.next ≡ false
      → KeepsList s.next (l_kevent api kernel oom enomem (Value.userdata u) (Value.table vs fs) s)
  unfolding l_kevent alloc
  l_kevent-KeepsList s u vs fs {d} at kind ne memory =
      let empty : List (Option Kevent) = replicate (length_items vs) none in
      elim (fill_changes-KeepsList s.next 0 vs
        (record s { cell = update s.cell s.next (some empty); next = s.next + 1 }) empty ne
        (update_self s.cell s.next _)
        (omega (arith, length-replicate {0} {A = Option Kevent} (length_items vs) none))) [
          | raises_with e changes t here eq ↦
              raises_with e changes t here
                (rw (checkudata-done 1 Meta.kqueue u s at kind, memory, ==-ne s.next 0 ne, eq) refl)
          | returns_with a changes t here eq ↦
              rw
                (
                  checkudata-done 1 Meta.kqueue u s at kind,
                  memory,
                  ==-ne s.next 0 ne,
                  eq,
                  load-done s.next t ne here,
                )
                (polled-KeepsList s.next (kernel.kevent _ changes) changes t here)
        ]
