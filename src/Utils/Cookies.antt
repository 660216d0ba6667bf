-- ===== src/Utils/Cookies.antt =====
-- How the functions of utils.h on cookies behave on userdata of the wanted kind and on those that
-- `new` makes.
use flualibs.Common.{
  ℕ, ◌≡◌, ◌≢◌, refl, true, some, [], ◌∷◌, ◌++◌, arith, length, get_elem?, set, Option-cases,
  if◌then◌else◌, inl, inr, ==-refl, none, get_elem?-append_length, get_elem?-set_self, get_elem?-lt,
}
use flualibs.Lua.{Value, Meta, same_meta, Userdata, Store}
use flualibs.Lua.Run.{done, raised, arg_error}
use flualibs.Utils.{
  checkudata, setuservalue, setcookie, cookie_or_null, testcookie, checkcookieuv, checkcookienull,
  checkcookie,
}

-- The userdata at `u` has the metatable and the pointer.
pub record HasCookie {Obj : Type 0} (s : Store Obj) (u : ℕ) (m : Meta) (p : ℕ) : Type 0 where
  pub data_of : Userdata
  pub at : get_elem? s.uds u ≡ some data_of
  pub kind : same_meta data_of.meta m ≡ true
  pub points : data_of.cookie ≡ Value.light p

module _ {Obj : Type 0} {s : Store Obj} {u : ℕ} {m : Meta} {p : ℕ} (h : HasCookie s u m p) where
  open h use {data_of, at, kind, points}

  pub checkcookieuv-done : (i : ℕ) → checkcookieuv i m (Value.userdata u) s ≡ done p s
  unfolding checkcookieuv
  checkcookieuv-done i = ground arith

  pub checkcookienull-done : (i : ℕ) → checkcookienull i m (Value.userdata u) s ≡ done p s
  unfolding checkcookienull
  checkcookienull-done i = ground arith

  pub checkcookie-done : (i : ℕ) → p ≢ 0 → checkcookie i m (Value.userdata u) s ≡ done p s
  unfolding checkcookie
  checkcookie-done i ne = ground arith

pub setuservalue-done :
    {Obj : Type 0} (s : Store Obj) (u : ℕ) (x : Value) {d : Userdata}
    → get_elem? s.uds u ≡ some d
    → setuservalue (Value.userdata u) x s
      ≡ done tt (record s { uds = set s.uds u (record d { cookie = x }) })
unfolding setuservalue
setuservalue-done s u x at = ground arith

pub checkudata-done :
    {Obj : Type 0} (idx : ℕ) (m : Meta) (u : ℕ) (s : Store Obj) {d : Userdata}
    → get_elem? s.uds u ≡ some d
    → same_meta d.meta m ≡ true
    → checkudata idx m (Value.userdata u) s ≡ done (u, d) s
checkudata-done idx m u s at same = ground arith

pub setcookie-done :
    {Obj : Type 0} (s : Store Obj) (u c : ℕ) {d : Userdata}
    → get_elem? s.uds u ≡ some d
    → setcookie (Value.userdata u) c s
      ≡ done tt (record s { uds = set s.uds u (record d { cookie = Value.light c }) })
unfolding setcookie
setcookie-done s u c at = ground arith

-- The userdata that `new` makes has the pointer, and the others are as they were.
pub new-HasCookie :
    {Obj : Type 0} (s : Store Obj) (m : Meta) (p : ℕ)
    → HasCookie
        (record s {
          uds =
              s.uds
              ++ record { meta = m; cookie = Value.light p; ref = Value.nil; block = none } ∷ [];
        })
        (length s.uds)
        m
        p
new-HasCookie s m p = record {
  data_of = _;
  at = get_elem?-append_length s.uds _;
  kind = ==-refl _;
  points = refl;
}

-- `testcookie` gives a pointer or NULL, and changes nothing.
pub testcookie-done :
    {Obj : Type 0} (m : Meta) (v : Value) (s : Store Obj) → (p : ℕ) × (testcookie m v s ≡ done p s)
unfolding testcookie
testcookie-done m (Value.userdata u) s = elim (Option-cases (get_elem? s.uds u)) [
  | inl e ↦ (0, ground arith)
  | inr (d, e) ↦ (if same_meta d.meta m then cookie_or_null d.cookie else 0, ground arith)
]
testcookie-done m Value.nil s = (0, refl)
testcookie-done m v s = (0, refl)

-- A cookie that was set to NULL is refused, and its userdata has it.
pub checkcookie-expired :
    {Obj : Type 0} {s : Store Obj} {u : ℕ} {m : Meta}
    → HasCookie s u m 0
    → (i : ℕ) → checkcookie i m (Value.userdata u) s ≡ raised (arg_error i "cookie expired") s
unfolding checkcookie
checkcookie-expired h i = ground (arith, h.at, h.kind, h.points)

pub HasCookie-set :
    {Obj : Type 0} {s : Store Obj} {u : ℕ} {m : Meta} {p : ℕ}
    → (h : HasCookie s u m p) → (c : ℕ)
    → HasCookie (record s { uds = set s.uds u (record h.data_of { cookie = Value.light c }) }) u m c
HasCookie-set {s = s} {u = u} h c = record {
  data_of = record h.data_of { cookie = Value.light c };
  at = get_elem?-set_self s.uds u _ (get_elem?-lt s.uds u h.at);
  kind = h.kind;
  points = refl;
}
