-- ===== src/Sys/Cpuset/Tests.antt =====
-- Sets of two processors, of sys/cpuset/lua_cpuset.c, as pairs of Booleans.
use flualibs.Common.{
  ℕ, ◌+◌, ◌≡◌, refl, Bool, true, false, not, ◌&&◌, ◌||◌, some, none, [], ◌∷◌, ◌==◌, if◌then◌else◌,
  update,
}
use flualibs.Lua.{Value, Meta, Userdata, Store}
use flualibs.Lua.Run.{Api}
use flualibs.Sys.Cpuset.{
  Sets, l_cpuset_ored, l_cpuset_or, l_cpuset_ornoted, l_cpuset_ornot, l_cpuset_anded, l_cpuset_and,
  l_cpuset_andnoted, l_cpuset_andnot, l_cpuset_xored, l_cpuset_xor,
}
use flualibs.Sys.Cpuset.Copies.{HasSet, on_copy, on_copy-eq}

abbrev api : Api
api = record {
  to_integer = λ v. none;
  to_string = λ v. none;
  strerror = λ e. [];
  fileno_errno = 9;
  sequence = λ v. none;
}

abbrev Two : Type 0
Two = Bool × Bool

abbrev differ : Bool → Bool → Bool
differ x y = if x then not y else y

abbrev one : Bool → ℕ
one x = if x then 1 else 0

abbrev sets : Sets Two
sets = record {
  setsize = 2;
  or = λ c d. (c.0 || d.0, c.1 || d.1);
  ornot = λ c d. (c.0 || not d.0, c.1 || not d.1);
  and = λ c d. (c.0 && d.0, c.1 && d.1);
  andnot = λ c d. (c.0 && not d.0, c.1 && not d.1);
  xor = λ c d. (differ c.0 d.0, differ c.1 d.1);
  put = λ i c. if i == 0 then (true, c.1) else (c.0, true);
  clr = λ i c. if i == 0 then (false, c.1) else (c.0, false);
  setof = λ i. if i == 0 then (true, false) else (false, true);
  zero = (false, false);
  full = (true, true);
  isset = λ i c. if i == 0 then c.0 else c.1;
  is_empty = λ c. not (c.0 || c.1);
  is_full = λ c. c.0 && c.1;
  ffs = λ c. if c.0 then 1 else if c.1 then 2 else 0;
  count = λ c. one c.0 + one c.1;
  subset = λ c d. (c.0 || not d.0) && (c.1 || not d.1);
  overlap = λ c d. (c.0 && d.0) || (c.1 && d.1);
  cmp = λ c d. differ c.0 d.0 || differ c.1 d.1;
}

abbrev a_set : Userdata
a_set = record { meta = Meta.cpuset; cookie = Value.nil; ref = Value.nil; block = none }

abbrev two_sets : Store Two
two_sets = record {
  cell = update (update (λ u. none) 0 (some (true, false))) 1 (some (true, true));
  next = 2;
  uds = a_set ∷ a_set ∷ [];
}

first : HasSet two_sets 0 (true, false)
first = record { data_of = a_set; at = refl; kind = refl; holds = refl }

second : HasSet two_sets 1 (true, true)
second = record { data_of = a_set; at = refl; kind = refl; holds = refl }

on_copy-eq_example :
    (on_copy api sets two_sets 0 1 first second (l_cpuset_or api sets) two_sets
      ≡ l_cpuset_ored api sets (Value.userdata 0) (Value.userdata 1) two_sets)
    × (on_copy api sets two_sets 0 1 first second (l_cpuset_ornot api sets) two_sets
        ≡ l_cpuset_ornoted api sets (Value.userdata 0) (Value.userdata 1) two_sets)
    × (on_copy api sets two_sets 0 1 first second (l_cpuset_and api sets) two_sets
        ≡ l_cpuset_anded api sets (Value.userdata 0) (Value.userdata 1) two_sets)
    × (on_copy api sets two_sets 0 1 first second (l_cpuset_andnot api sets) two_sets
        ≡ l_cpuset_andnoted api sets (Value.userdata 0) (Value.userdata 1) two_sets)
    × (on_copy api sets two_sets 0 1 first second (l_cpuset_xor api sets) two_sets
        ≡ l_cpuset_xored api sets (Value.userdata 0) (Value.userdata 1) two_sets)
on_copy-eq_example = on_copy-eq api sets two_sets 0 1 first second
