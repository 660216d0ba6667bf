-- ===== src/Sys/Descriptor/Refinement.antt =====
-- The abstract view of a descriptor behind a userdata: open with a number, or closed; and what it
-- is for methods to implement operations on that view.
use flualibs.Common.{
  ℕ, ◌<◌, ◌≡◌, refl, Option, none, some, String, List, [], ◌∷◌, map, length, get_elem?, set,
  get_elem?-set_self, set-set, true,
}
use flualibs.Common.Int.{ℤ, to_int}
use flualibs.Lua.{Value, Meta, same_meta, Userdata, Store}
use flualibs.Lua.Run.{
  Run, Cmd, LuaError, arg_error, done, raised, fault, aborted, out_of_fuel, Api, pure, ◌>>=◌, ◌>>◌,
}
use flualibs.Utils.{success, fail, setuservalue}
use flualibs.Utils.Cookies.{checkudata-done, setuservalue-done}
use flualibs.Sys.{Answer, result, failed, answered}
use flualibs.Sys.Descriptor.{World, checknil, close_value, on_store, tointeger}

pub data Outcome : Type 0 where
  returned : List Value → Outcome
  refused : LuaError → Outcome

module _ (K : Type 0) where
  -- The number while the descriptor is open, and the kernel.
  abbrev pub State : Type 0
  State = Option ℤ × K

  abbrev pub Operation : Type 0
  Operation = State → Outcome × State

  abbrev pub Handler : Type 0
  Handler = Value → Cmd (World K) (List Value)

module _ {K : Type 0} where
  -- An operation on an open descriptor alone.
  abbrev pub on_open : String → (ℤ → K → Outcome × K) → Operation K
  on_open problem f (none, k) = (refused (arg_error 1 problem), (none, k))
  on_open problem f (some n, k) = let (o, k') = f (to_int n) k in (o, (some n, k'))

  abbrev pub closed_as : Api → ℤ → Answer (Unit {0}) × K → Outcome × State K
  closed_as api n (result u, k) = (returned success, (none, k))
  closed_as api n (failed e, k) = (returned (fail api e), (some n, k))

  -- Closing succeeds on what is closed, without the kernel; what the kernel does not close stays
  -- open.
  abbrev pub close_operation : Api → (ℤ → K → Answer (Unit {0}) × K) → Operation K
  close_operation api close (none, k) = (returned success, (none, k))
  close_operation api close (some n, k) = closed_as api n (close (to_int n) k)

  abbrev pub operate : List (Operation K) → State K → List Outcome × State K
  operate [] st = ([], st)
  operate (g ∷ gs) st = let (o, st') = g st in let (os, st'') = operate gs st' in (o ∷ os, st'')

  abbrev also : Outcome → Option (List Outcome × World K) → Option (List Outcome × World K)
  also o none = none
  also o (some (os, w)) = some (o ∷ os, w)

  -- Calls one after the other, each protected: an error that is raised is an outcome. `none` if a
  -- call does something undefined.
  abbrev pub caught :
      Run (World K) (List Value)
      → (World K → Option (List Outcome × World K))
      → Option (List Outcome × World K)
  caught (done vs w) rest = also (returned vs) (rest w)
  caught (raised e w) rest = also (refused e) (rest w)
  caught fault rest = none
  caught aborted rest = none
  caught out_of_fuel rest = none

  abbrev pub calls : List (Handler K) → Value → World K → Option (List Outcome × World K)
  calls [] v w = some ([], w)
  calls (f ∷ fs) v w = caught (f v w) (calls fs v)

-- The worlds that stand for the states of one userdata, at the place `u`: what holds a state
-- there is `put`.
module _ {K : Type 0} (put : Option ℤ → Userdata) (base : Store (Unit {0})) (u : ℕ) where
  abbrev pub represents : State K → World K
  represents (d, k) = record { store = record base { uds = set base.uds u (put d) }; kernel = k }

  abbrev pub outcome_run : Outcome × State K → Run (World K) (List Value)
  outcome_run (returned vs, st) = done vs (represents st)
  outcome_run (refused e, st) = raised e (represents st)

  -- A call on a world that stands for a state gives the outcome of the operation, and a world that
  -- stands for its state.
  abbrev pub Implements : Handler K → Operation K → Type 0
  Implements f g = (st : State K) → f (Value.userdata u) (represents st) ≡ outcome_run (g st)

  caught-outcome_run :
      (x : Outcome × State K) (rest : World K → Option (List Outcome × World K))
      → caught (outcome_run x) rest ≡ also (x.0) (rest (represents x.1))
  caught-outcome_run (returned vs, st) rest = refl
  caught-outcome_run (refused e, st) rest = refl

  -- Handlers that implement operations one by one do so in every sequence.
  pub calls-operate :
      {M : Type 0} (f : M → Handler K) (g : M → Operation K)
      → ((m : M) → Implements (f m) (g m))
      → (ms : List M) (st : State K)
      → calls (map f ms) (Value.userdata u) (represents st)
        ≡ some ((operate (map g ms) st).0, represents (operate (map g ms) st).1)
  calls-operate f g square [] st = refl
  calls-operate f g square (m ∷ ms) st =
      rw (square m st, caught-outcome_run (g m st), calls-operate f g square ms (g m st).1) refl

  -- A userdata of a kind with the user value FILEDESC.
  module _ (at : u < length base.uds) where
    pub get_elem?-represents :
        (st : State K) → get_elem? (represents st).store.uds u ≡ some (put st.0)
    get_elem?-represents (d, k) = get_elem?-set_self base.uds u (put d) at

abbrev pub filedesc : Option ℤ → Value
filedesc none = Value.nil
filedesc (some n) = Value.integer n

abbrev pub with_filedesc : Userdata → Option ℤ → Userdata
with_filedesc kind d = record kind { cookie = filedesc d }

-- The methods of a kind of userdata whose descriptor is its user value.
module _ {K : Type 0} (kind : Userdata) (base : Store (Unit {0})) (u : ℕ)
    (at : u < length base.uds) where
  pub checknil-represents :
      (m : Meta) (idx : ℕ) (st : State K)
      → same_meta kind.meta m ≡ true
      → checknil m idx (Value.userdata u) (represents (with_filedesc kind) base u st)
        ≡ done (filedesc st.0) (represents (with_filedesc kind) base u st)
  checknil-represents m idx (d, k) same =
      rw
        (checkudata-done idx m u (represents {K = K} (with_filedesc kind) base u (d, k)).store
          (get_elem?-set_self base.uds u (with_filedesc kind d) at) same)
        refl

  setuservalue-represents :
      (st : State K)
      → setuservalue (Value.userdata u) Value.nil (represents (with_filedesc kind) base u st).store
        ≡ done tt (represents (with_filedesc kind) base u (none, st.1)).store
  unfolding setuservalue
  setuservalue-represents (d, k) =
      rw
        (
          setuservalue-done (represents {K = K} (with_filedesc kind) base u (d, k)).store u
              Value.nil (get_elem?-set_self base.uds u (with_filedesc kind d) at),
          set-set base.uds u (with_filedesc kind d) (with_filedesc kind none),
        )
        refl

  closed-Implements :
      (api : Api) (n : ℤ) (k : K) (x : Answer (Unit {0}) × K)
      → answered api
          (x.0)
          (λ a. on_store (setuservalue (Value.userdata u) Value.nil) >> pure success)
          (represents (with_filedesc kind) base u (some n, x.1))
        ≡ outcome_run (with_filedesc kind) base u (closed_as api n x)
  closed-Implements api n k (result a, k') = rw (setuservalue-represents (some n, k')) refl
  closed-Implements api n k (failed e, k') = refl

  -- Closing implements the operation of the view, where Lua gives an integer as it is.
  pub close_value-Implements :
      (api : Api) (m : Meta) (close : ℤ → K → Answer (Unit {0}) × K)
      → same_meta kind.meta m ≡ true
      → ((n : ℤ) → api.to_integer (Value.integer n) ≡ some n)
      → Implements
          (with_filedesc kind)
          base
          u
          (λ v. checknil m 1 v >>= λ filedesc. close_value api close v filedesc)
          (close_operation api close)
  close_value-Implements api m close same exact (none, k) =
      rw (checknil-represents m 1 (none, k) same) refl
  close_value-Implements api m close same exact (some n, k) =
      rw (checknil-represents m 1 (some n, k) same, tointeger, exact n)
        (closed-Implements api n k (close (to_int n) k))
