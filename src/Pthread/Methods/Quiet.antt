-- ===== src/Pthread/Methods/Quiet.antt =====
-- Steps of the methods of libpthread/lua_pthread.c that answer or raise an error, and leave the store
-- as it is.
use flualibs.Common.{
  ℕ, ◌+◌, ◌≡◌, refl, sym, true, some, List, arith, get_elem?, ◌==◌, Bool-cases, Option-cases, inl,
  inr,
}
use mathlib.Core.Path.{subst}
use flualibs.Common.Int.{ℤ, pos}
use flualibs.Lua.{Value, Meta, same_meta, Userdata}
use flualibs.Lua.Run.{
  Run, Cmd, LuaError, arg_error, done, raised, pure, Api, checkinteger, optinteger, and_then, ◌>>=◌,
}
use flualibs.Utils.{checklightuserdata, checkcookie}
use flualibs.Utils.Cookies.{HasCookie}
use flualibs.Heap.{load}
use flualibs.Heap.Cells.{load-done}
use flualibs.Pthread.Defs.{Rc, RcStore, Lib}
use flualibs.Pthread.Methods.{timespec}
use flualibs.Pthread.Ownership.{Counted, Held}
use flualibs.Pthread.Ownership.Collecting.{held_by}

-- An answer that satisfies `P` or an error, in the state `s`.
pub data Answers {A : Type 0} (s : RcStore) (P : A → Type 0) : Run RcStore A → Type 0 where
  answered : {a : A} → P a → Answers s P (done a s)
  refused : (e : LuaError) → Answers s P (raised e s)

-- Nothing is claimed of the answer.
abbrev pub Any : {A : Type 0} → A → Type 0
Any a = Unit

pub bind-Answers :
    {A B : Type 0} {s : RcStore} {P : A → Type 0} {Q : B → Type 0} (m : Cmd RcStore A)
    (k : A → Cmd RcStore B)
    → Answers s P (m s)
    → ((a : A) → P a → Answers s Q (k a s))
    → Answers s Q ((m >>= k) s)
bind-Answers {A} {s = s} {P} {Q} m k first next = and_then-Answers (m s) first
  where
    and_then-Answers : (r : Run RcStore A) → Answers s P r → Answers s Q (and_then r k)
    and_then-Answers r (answered p) = next _ p
    and_then-Answers r (refused e) = refused e

module _ (api : Api) (lib : Lib) {s : RcStore} where
  by : {A : Type 0} {P : A → Type 0} {r t : Run RcStore A} → r ≡ t → Answers s P t → Answers s P r
  by {P = P} e a = subst (Answers s P) (sym e) a

  pub checkinteger-Answers : (i : ℕ) (v : Value) → Answers s Any (checkinteger api i v s)
  checkinteger-Answers i v = elim (Option-cases (api.to_integer v)) [
    | inl e ↦ rw (checkinteger, e) (refused _)
    | inr (n, e) ↦ rw (checkinteger, e) (answered tt)
  ]

  optinteger-Answers : (i : ℕ) (v : Value) (d : ℤ) → Answers s Any (optinteger api i v d s)
  optinteger-Answers i Value.absent d = answered tt
  optinteger-Answers i Value.nil d = answered tt
  optinteger-Answers i v d = checkinteger-Answers i v

  pub timespec-Answers : (i : ℕ) (v w : Value) → Answers s Any (timespec api i v w s)
  timespec-Answers i v w = bind-Answers (checkinteger api i v) _ (checkinteger-Answers i v) λ a u.
      bind-Answers (optinteger api (i + 1) w (pos 0)) _ (optinteger-Answers (i + 1) w (pos 0))
        λ b u. answered tt

  pub checklightuserdata-Answers : (i : ℕ) (v : Value) → Answers s Any (checklightuserdata i v s)
  checklightuserdata-Answers i (Value.light p) = answered tt
  checklightuserdata-Answers i v = refused _

  pub load-Answers : {p : ℕ} → Held s p → Answers s Any (load p s)
  load-Answers {p} held = rw (load-done p s held.ne_null held.at) (answered tt)

  -- `checkcookie` on a userdata with the metatable, by its cookie.
  kind-Answers :
      Counted s
      → (i u : ℕ) (m : Meta) {d : Userdata} → get_elem? s.uds u ≡ some d
      → same_meta d.meta m ≡ true
      → (c : Value) → d.cookie ≡ c
      → Answers s (Held s) (checkcookie i m (Value.userdata u) s)
  unfolding checkcookie
  kind-Answers h i u m {d} at kind (Value.light p) points = elim (Bool-cases (p == 0)) [
    | inl null ↦ by {t = raised (arg_error i "cookie expired") s} (ground arith) (refused _)
    | inr pointer ↦
        let c : HasCookie s u m p = record { data_of = d; at = at; kind = kind; points = points } in
        by {t = done p s} (ground arith) (answered (held_by h c))
  ]
  kind-Answers h i u m at kind c points =
      by {t = raised (arg_error i "invalid cookie") s} (ground arith) (refused _)

  pub checkcookie-Answers :
      Counted s → (i : ℕ) (m : Meta) (v : Value) → Answers s (Held s) (checkcookie i m v s)
  unfolding checkcookie
  checkcookie-Answers h i m (Value.userdata u) = elim (Option-cases (get_elem? s.uds u)) [
    | inl e ↦ by {t = raised (arg_error i "userdata expected") s} (ground arith) (refused _)
    | inr (d, e) ↦ elim (Bool-cases (same_meta d.meta m)) [
      | inl kind ↦ kind-Answers h i u m e kind d.cookie refl
      | inr other ↦ by {t = raised (arg_error i "userdata expected") s} (ground arith) (refused _)
    ]
  ]
  checkcookie-Answers h i m v = refused _

  -- The shape of most methods: the object is read, and one function of the library is called.
  pub object-Answers :
      Counted s
      → (m : Meta) (v : Value) (answer : ℕ → Rc → List Value)
      → Answers s Any ((checkcookie 1 m v >>= λ p. load p >>= λ r. pure (answer p r)) s)
  object-Answers h m v answer =
      bind-Answers (checkcookie 1 m v) _ (checkcookie-Answers h 1 m v)
        λ p held. bind-Answers (load p) _ (load-Answers held) λ r any. answered tt
