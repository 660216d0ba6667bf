-- ===== src/Pthread/Ownership/Invariant.antt =====
-- What holds in every state that the constructors, `retain` functions and finalisers of
-- libpthread/lua_pthread.c reach.
use flualibs.Common.{
  ℕ, ◌+◌, ◌^◌, ◌≤◌, ◌<◌, ◌≡◌, refl, Bool, some, none, List, [], ◌∷◌, ◌++◌, arith, sym, length,
  length-append,
}
use mathlib.Core.Path.{subst}
use flualibs.Lua.{Value, Meta}
use flualibs.Lua.Run.{Run, Cmd, LuaError, done, raised, Api}
use flualibs.Utils.Cookies.{HasCookie}
use flualibs.Pthread.Defs.{Rc, RcStore, Lib}
use flualibs.Pthread.Created.{userdata_for}
use flualibs.Pthread.Ownership.{holders, Counted, Held-of, retain-done, retain-Counted}
use flualibs.Pthread.Ownership.Collecting.{bury, less, answer, held_by, less-Counted}
use flualibs.Pthread.Ownership.History.{
  Retainer, Retainer-retain, Finaliser, destroys, Finaliser-done, Step, constructed, refused,
  shared, collected, collected_failing, Reach, start, step, After, Constructor-Counted,
  Method-Counted, called, called_failing, answer-After,
}

-- An outcome that is known tells the state that it left.
After-done :
    {S A : Type 0} (P : S → Type 0) {r : Run S A} {a : A} {t : S} → r ≡ done a t → After P r → P t
After-done P e h = subst (After P) e h

After-raised :
    {S A : Type 0} (P : S → Type 0) {r : Run S A} {e : LuaError} {t : S}
    → r ≡ raised e t
    → After P r
    → P t
After-raised P e h = subst (After P) e h

module _ (api : Api) (lib : Lib) (oom : ℕ → Bool) where
  module _ {s : RcStore} (h : Counted s) where
    shared-After :
        {m : Meta} {f : Value → Cmd RcStore (List Value)} (p : ℕ)
        → Retainer m f
        → 1 ≤ holders p s.uds
        → length s.uds + 1 < 2 ^ 64
        → After Counted (f (Value.light p) s)
    shared-After {m} {f} p k held few =
        let few' : length (s.uds ++ userdata_for m p ∷ []) < 2 ^ 64 =
          omega (arith, few, length-append s.uds (userdata_for m p ∷ [])) in
        subst (λ g. After Counted (g s)) (sym (Retainer-retain k (Value.light p)))
          (subst (After Counted) (sym (retain-done h (Held-of h p held) m few'))
            (retain-Counted h (Held-of h p held) m few'))

    final-After :
        {m : Meta} {f : Value → Cmd RcStore (List Value)} {u p : ℕ}
        → Finaliser lib m f
        → (c : HasCookie s u m p)
        → After (λ t. Counted (bury u c.data_of t)) (f (Value.userdata u) s)
    final-After {f = f} {u} {p} final c =
        let r = (held_by h c).object in
        subst (After (λ t. Counted (bury u c.data_of t))) (sym (Finaliser-done h final c))
          (answer-After h _ (destroys final p r) r (less p r s) (less-Counted h c))

    Step-Counted : {t : RcStore} → Step api lib oom s t → length t.uds < 2 ^ 64 → Counted t
    Step-Counted (constructed k e) = After-done _ e (Constructor-Counted h k)
    Step-Counted (refused k e) = After-raised _ e (Constructor-Counted h k)
    Step-Counted (called k e) = λ few. After-done _ e (Method-Counted h k)
    Step-Counted (called_failing k e) = λ few. After-raised _ e (Method-Counted h k)
    Step-Counted (shared {p = p} k held few e) = λ after. After-done _ e (shared-After p k held few)
    Step-Counted (collected final c e) = λ few. After-done _ e (final-After final c)
    Step-Counted (collected_failing final c e) = λ few. After-raised _ e (final-After final c)

  start-Counted : Counted (record { cell = λ q. none; next = 1; uds = [] })
  start-Counted = record {
    tally = λ p. refl;
    live = λ p r e. ground arith;
    empty = λ p le. refl;
    null = refl;
    start = omega arith;
    few = omega arith;
  }

  -- In every state that constructors, methods, `retain` functions and finalisers reach, the count of each object
  -- is the number of the userdata that hold it, memory that is not allocated is held by none, and
  -- no object is left without a holder.
  pub Reach-Counted : {s : RcStore} → Reach api lib oom s → Counted s
  Reach-Counted start = start-Counted
  Reach-Counted (step before taken few) = Step-Counted (Reach-Counted before) taken few

  module _ {s : RcStore} (reach : Reach api lib oom s) where
    -- In a reachable state a finaliser on a userdata of its kind with a pointer finds the object. It
    -- gives back one reference, and with the last one the memory; then it raises the first error of
    -- the destructors, if there is one.
    pub Finaliser-released :
        {m : Meta} {f : Value → Cmd RcStore (List Value)} {u p : ℕ}
        → (final : Finaliser lib m f) → HasCookie s u m p
        → (r : Rc) × (s.cell p ≡ some r)
          × (r.refs ≡ holders p s.uds)
          × (f (Value.userdata u) s ≡ answer (destroys final p r) r (less p r s))
    Finaliser-released final c =
        let h = Reach-Counted reach in
        let held = held_by h c in (held.object, held.at, held.refs, Finaliser-done h final c)
