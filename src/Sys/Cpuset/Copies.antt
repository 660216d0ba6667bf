-- ===== src/Sys/Cpuset/Copies.antt =====
-- The two ways to combine sets in sys/cpuset/lua_cpuset.c: into a new set, and in place.
use flualibs.Common.{
  ℕ, ◌≡◌, refl, ap, ◌∙◌, arith, true, none, some, List, [], ◌∷◌, ◌++◌, length, get_elem?,
  get_elem?-lt, get_elem?-append_lt, get_elem?-append_length, update, update_self, update_other,
  update-update,
}
use flualibs.Lua.{Value, Meta, same_meta, Userdata, Store}
use flualibs.Lua.Run.{Cmd, done, Api, ◌>>=◌}
use flualibs.Utils.Cookies.{checkudata-done}
use flualibs.Sys.Cpuset.{
  Sets, newanoncpuset, checkset, put_set, combined, combine, l_cpuset_copied, l_cpuset_ored,
  l_cpuset_or, l_cpuset_ornoted, l_cpuset_ornot, l_cpuset_anded, l_cpuset_and, l_cpuset_andnoted,
  l_cpuset_andnot, l_cpuset_xored, l_cpuset_xor,
}

-- The userdata at a place is a set.
pub record HasSet {C : Type 0} (s : Store C) (u : ℕ) (c : C) : Type 0 where
  pub data_of : Userdata
  pub at : get_elem? s.uds u ≡ some data_of
  pub kind : same_meta data_of.meta Meta.cpuset ≡ true
  pub holds : s.cell u ≡ some c

checkset-done :
    {C : Type 0} {s : Store C} {u : ℕ} {c : C} (i : ℕ)
    → HasSet s u c
    → checkset i (Value.userdata u) s ≡ done (u, c) s
unfolding checkset
checkset-done {s = s} {u = u} i h = rw (checkudata-done i Meta.cpuset u s h.at h.kind, h.holds) refl

-- The first value of a result.
abbrev pub first_value : List Value → Value
first_value [] = Value.absent
first_value (v ∷ vs) = v

module _ {C : Type 0} (api : Api) (sets : Sets C) (s : Store C) (a b : ℕ) {c1 c2 : C}
    (ha : HasSet s a c1) (hb : HasSet s b c2) where
  abbrev grown : C → Store C
  grown c = record s {
    cell = update s.cell (length s.uds) (some c);
    uds =
        s.uds
        ++ record { meta = Meta.cpuset; cookie = Value.nil; ref = Value.nil; block = none } ∷ [];
  }

  new-HasSet : (c : C) → HasSet (grown c) (length s.uds) c
  new-HasSet c = record {
    data_of = _;
    at = get_elem?-append_length s.uds _;
    kind = refl;
    holds = update_self s.cell (length s.uds) (some c);
  }

  old-HasSet : (c : C) → HasSet (grown c) b c2
  old-HasSet c =
      let lt = get_elem?-lt s.uds b hb.at in
      record {
        data_of = hb.data_of;
        at = get_elem?-append_lt s.uds _ b lt ∙ hb.at;
        kind = hb.kind;
        holds =
            update_other s.cell (length s.uds) b _ (λ e. absurd (omega (arith, lt, e))) ∙ hb.holds;
      }

  combine-copied :
      (f : C → C → C)
      → (l_cpuset_copied api sets (Value.userdata a) >>= λ vs.
            combine api sets f (first_value vs) (Value.userdata b) Value.absent)
          s
        ≡ combined api sets f (Value.userdata a) (Value.userdata b) s
  unfolding l_cpuset_copied newanoncpuset put_set
  combine-copied f =
      rw
        (
          checkset-done 1 ha,
          checkset-done 1 (new-HasSet c1),
          checkset-done 2 (old-HasSet c1),
          checkset-done 2 hb,
        )
        (ap (λ cell. done (Value.userdata (length s.uds) ∷ []) (record (grown c1) { cell = cell }))
          (update-update s.cell (length s.uds) (some c1) (some (f c1 c2))))

  abbrev pub on_copy : ((v w x : Value) → Cmd (Store C) (List Value)) → Cmd (Store C) (List Value)
  on_copy f = l_cpuset_copied api sets (Value.userdata a) >>= λ vs.
      f (first_value vs) (Value.userdata b) Value.absent

  -- For two sets, also if they are one: each function that makes a set of two does the same as
  -- copied on the first, and then the method on the copy.
  pub on_copy-eq :
      (on_copy (l_cpuset_or api sets) s
        ≡ l_cpuset_ored api sets (Value.userdata a) (Value.userdata b) s)
      × (on_copy (l_cpuset_ornot api sets) s
          ≡ l_cpuset_ornoted api sets (Value.userdata a) (Value.userdata b) s)
      × (on_copy (l_cpuset_and api sets) s
          ≡ l_cpuset_anded api sets (Value.userdata a) (Value.userdata b) s)
      × (on_copy (l_cpuset_andnot api sets) s
          ≡ l_cpuset_andnoted api sets (Value.userdata a) (Value.userdata b) s)
      × (on_copy (l_cpuset_xor api sets) s
          ≡ l_cpuset_xored api sets (Value.userdata a) (Value.userdata b) s)
  unfolding l_cpuset_or l_cpuset_ored l_cpuset_ornot l_cpuset_ornoted l_cpuset_and l_cpuset_anded
      l_cpuset_andnot l_cpuset_andnoted l_cpuset_xor l_cpuset_xored
  on_copy-eq = (
    combine-copied sets.or,
    combine-copied sets.ornot,
    combine-copied sets.and,
    combine-copied sets.andnot,
    combine-copied sets.xor,
  )
