-- ===== src/Sys/Cpuset.antt =====
-- sys/cpuset/lua_cpuset.c: sets of processors in the blocks of userdata. The macros of
-- sys/cpuset.h are parameters. The block of a userdata is the cell at its place among the
-- userdata.
pub mod Copies
pub mod Tests
use flualibs.Common.{
  ℕ, ◌-◌, Bool, not, Option, none, some, List, [], ◌∷◌, ◌++◌, ◌==◌, if◌then◌else◌, ltb, length,
  update,
}
use flualibs.Common.Int.{ℤ, pos, to_word}
use flualibs.Lua.{Value, Meta, Userdata, Store}
use flualibs.Lua.Run.{
  Cmd, done, fault, arg_error, pure, raise, undefined, Api, checkinteger, ◌>>=◌, ◌>>◌,
}
use flualibs.Utils.{checkudata}

-- The sets and their operations; a processor has a place only below CPU_SETSIZE.
pub record Sets (C : Type 0) : Type 0 where
  pub setsize : ℕ
  pub or : C → C → C
  pub ornot : C → C → C
  pub and : C → C → C
  pub andnot : C → C → C
  pub xor : C → C → C
  pub put : ℕ → C → C
  pub clr : ℕ → C → C
  pub setof : ℕ → C
  pub zero : C
  pub full : C
  pub isset : ℕ → C → Bool
  pub is_empty : C → Bool
  pub is_full : C → Bool
  pub ffs : C → ℕ
  pub count : C → ℕ
  pub subset : C → C → Bool
  pub overlap : C → C → Bool
  pub cmp : C → C → Bool

module _ {C : Type 0} where
  -- A new userdata, with the set that is written into it.
  unfoldable pub newanoncpuset : C → Cmd (Store C) (List Value)
  newanoncpuset c s = done (Value.userdata (length s.uds) ∷ []) (record s {
    cell = update s.cell (length s.uds) (some c);
    uds =
        s.uds
        ++ record { meta = Meta.cpuset; cookie = Value.nil; ref = Value.nil; block = none } ∷ [];
  })

  abbrev set_at : ℕ → Option C → Cmd (Store C) (ℕ × C)
  set_at u none = undefined
  set_at u (some c) = pure (u, c)

  unfoldable pub checkset : ℕ → Value → Cmd (Store C) (ℕ × C)
  checkset i v = do (u, d) ← checkudata i Meta.cpuset v; λ s. set_at u (s.cell u) s

  -- The set of a userdata is written, and the userdata returned.
  unfoldable pub put_set : ℕ → C → Cmd (Store C) (List Value)
  put_set u c s = done (Value.userdata u ∷ []) (record s { cell = update s.cell u (some c) })

  -- `luaL_checktype(L, i, LUA_TNONE)`.
  abbrev no_more : ℕ → Value → Cmd (Store C) (Unit {0})
  no_more i Value.absent = pure tt
  no_more i v = raise (arg_error i "no value expected")

  abbrev answer : Bool → Cmd (Store C) (List Value)
  answer b = pure (Value.boolean b ∷ [])

module _ {C : Type 0} (api : Api) (sets : Sets C) where
  abbrev cpu_idx : ℕ → Value → Cmd (Store C) ℕ
  cpu_idx i v = do n ← checkinteger api i v; pure (to_word 64 n)

  -- The macros do not check the place of a processor.
  abbrev bounded : ℕ → Cmd (Store C) (Unit {0})
  bounded i = if ltb i sets.setsize then pure tt else undefined

  -- The functions that make a set of two.
  abbrev pub combined : (C → C → C) → (v w : Value) → Cmd (Store C) (List Value)
  combined f v w = do (a, c1) ← checkset 1 v; (b, c2) ← checkset 2 w; newanoncpuset (f c1 c2)

  -- The methods that change the first of two sets.
  abbrev pub combine : (C → C → C) → (v w x : Value) → Cmd (Store C) (List Value)
  combine f v w x = do
    (a, c1) ← checkset 1 v
    (b, c2) ← checkset 2 w
    no_more 3 x
    put_set a (f c1 c2)

  abbrev compared : (C → C → Bool) → (v w : Value) → Cmd (Store C) (List Value)
  compared f v w = do (a, c1) ← checkset 1 v; (b, c2) ← checkset 2 w; answer (f c1 c2)

  unfoldable pub l_cpuset_copied : Value → Cmd (Store C) (List Value)
  l_cpuset_copied v = do (a, c) ← checkset 1 v; newanoncpuset c

  unfoldable pub l_cpuset_filled : Cmd (Store C) (List Value)
  l_cpuset_filled = newanoncpuset sets.full

  unfoldable pub l_cpuset_zeroed : Cmd (Store C) (List Value)
  l_cpuset_zeroed = newanoncpuset sets.zero

  unfoldable pub l_cpuset_only : Value → Cmd (Store C) (List Value)
  l_cpuset_only v = do n ← cpu_idx 1 v; bounded n; newanoncpuset (sets.setof n)

  unfoldable pub l_cpuset_ored : (v w : Value) → Cmd (Store C) (List Value)
  l_cpuset_ored v w = combined sets.or v w

  unfoldable pub l_cpuset_or : (v w x : Value) → Cmd (Store C) (List Value)
  l_cpuset_or v w x = combine sets.or v w x

  unfoldable pub l_cpuset_ornoted : (v w : Value) → Cmd (Store C) (List Value)
  l_cpuset_ornoted v w = combined sets.ornot v w

  unfoldable pub l_cpuset_ornot : (v w x : Value) → Cmd (Store C) (List Value)
  l_cpuset_ornot v w x = combine sets.ornot v w x

  unfoldable pub l_cpuset_anded : (v w : Value) → Cmd (Store C) (List Value)
  l_cpuset_anded v w = combined sets.and v w

  unfoldable pub l_cpuset_and : (v w x : Value) → Cmd (Store C) (List Value)
  l_cpuset_and v w x = combine sets.and v w x

  unfoldable pub l_cpuset_andnoted : (v w : Value) → Cmd (Store C) (List Value)
  l_cpuset_andnoted v w = combined sets.andnot v w

  unfoldable pub l_cpuset_andnot : (v w x : Value) → Cmd (Store C) (List Value)
  l_cpuset_andnot v w x = combine sets.andnot v w x

  unfoldable pub l_cpuset_xored : (v w : Value) → Cmd (Store C) (List Value)
  l_cpuset_xored v w = combined sets.xor v w

  unfoldable pub l_cpuset_xor : (v w x : Value) → Cmd (Store C) (List Value)
  l_cpuset_xor v w x = combine sets.xor v w x

  unfoldable pub l_cpuset_clr : (v n x : Value) → Cmd (Store C) (List Value)
  l_cpuset_clr v n x = do
    (a, c) ← checkset 1 v
    i ← cpu_idx 2 n
    no_more 3 x
    bounded i
    put_set a (sets.clr i c)

  unfoldable pub l_cpuset_set : (v n x : Value) → Cmd (Store C) (List Value)
  l_cpuset_set v n x = do
    (a, c) ← checkset 1 v
    i ← cpu_idx 2 n
    no_more 3 x
    bounded i
    put_set a (sets.put i c)

  unfoldable pub l_cpuset_setof : (v n x : Value) → Cmd (Store C) (List Value)
  l_cpuset_setof v n x = do
    (a, c) ← checkset 1 v
    i ← cpu_idx 2 n
    no_more 3 x
    bounded i
    put_set a (sets.setof i)

  unfoldable pub l_cpuset_copy : (v w x : Value) → Cmd (Store C) (List Value)
  l_cpuset_copy v w x = combine (λ c1 c2. c2) v w x

  unfoldable pub l_cpuset_zero : (v x : Value) → Cmd (Store C) (List Value)
  l_cpuset_zero v x = do (a, c) ← checkset 1 v; no_more 2 x; put_set a sets.zero

  unfoldable pub l_cpuset_fill : (v x : Value) → Cmd (Store C) (List Value)
  l_cpuset_fill v x = do (a, c) ← checkset 1 v; no_more 2 x; put_set a sets.full

  unfoldable pub l_cpuset_isset : (v n : Value) → Cmd (Store C) (List Value)
  l_cpuset_isset v n = do (a, c) ← checkset 1 v; i ← cpu_idx 2 n; bounded i; answer (sets.isset i c)

  unfoldable pub l_cpuset_empty : Value → Cmd (Store C) (List Value)
  l_cpuset_empty v = do (a, c) ← checkset 1 v; answer (sets.is_empty c)

  unfoldable pub l_cpuset_isfullset : Value → Cmd (Store C) (List Value)
  l_cpuset_isfullset v = do (a, c) ← checkset 1 v; answer (sets.is_full c)

  -- CPU_FFS counts from 1, and gives 0 for the empty set.
  unfoldable pub l_cpuset_ffs : Value → Cmd (Store C) (List Value)
  l_cpuset_ffs v = do
    (a, c) ← checkset 1 v
    pure ((if sets.ffs c == 0 then Value.nil else Value.integer (pos (sets.ffs c - 1))) ∷ [])

  unfoldable pub l_cpuset_count : Value → Cmd (Store C) (List Value)
  l_cpuset_count v = do (a, c) ← checkset 1 v; pure (Value.integer (pos (sets.count c)) ∷ [])

  unfoldable pub l_cpuset_subset : (v w : Value) → Cmd (Store C) (List Value)
  l_cpuset_subset v w = compared sets.subset v w

  unfoldable pub l_cpuset_overlap : (v w : Value) → Cmd (Store C) (List Value)
  l_cpuset_overlap v w = compared sets.overlap v w

  unfoldable pub l_cpuset_cmp : (v w : Value) → Cmd (Store C) (List Value)
  l_cpuset_cmp v w = compared sets.cmp v w

  unfoldable pub l_cpuset_equal : (v w : Value) → Cmd (Store C) (List Value)
  l_cpuset_equal v w = compared (λ c1 c2. not (sets.cmp c1 c2)) v w
