-- ===== src/Pthread/Rendezvous/Views.antt =====
-- Runs of a rendezvous of libpthread/lua_pthread.c as two threads see them: what each step of a call of
-- `exchange` leaves.
use flualibs.Common.{
  ℕ, ◌≤◌, ◌≡◌, ◌≢◌, refl, ap, ◌∙◌, Bool, false, Option, none, some, List, [], ◌∷◌, ◌++◌, length,
  inl, update, update_self, update_other,
}
use flualibs.Common.Int.{ℤ, pos}
use flualibs.Lua.{Value}
use flualibs.Pthread.Rendezvous.{
  Message, Sent, Stack, top_integer, pop, leave, base, narg_of, exchange, Pc, outside, entered,
  inside, waiting, woken, leaving, ended, System, Step, exchanged, call, lock, wait, swap, resume,
  unlock,
}

-- What two threads see of a system.
pub record View (i j : ℕ) (s : System) (owner waiter : Option ℕ) (p q : Pc) (mine theirs : Stack)
    : Type 0 where
  pub owner_is : s.owner ≡ owner
  pub waiter_is : s.waiter ≡ waiter
  pub pc_is : s.pc i ≡ p
  pub other_pc_is : s.pc j ≡ q
  pub stack_is : s.stack i ≡ mine
  pub other_stack_is : s.stack j ≡ theirs

turned :
    {i j : ℕ} {s : System} {owner waiter : Option ℕ} {p q : Pc} {mine theirs : Stack}
    → View i j s owner waiter p q mine theirs
    → View j i s owner waiter q p theirs mine
turned v = record {
  owner_is = v.owner_is;
  waiter_is = v.waiter_is;
  pc_is = v.other_pc_is;
  other_pc_is = v.pc_is;
  stack_is = v.other_stack_is;
  other_stack_is = v.stack_is;
}

module _ (copyn : ℕ → List Value → Sent) (text : Message → List ℕ) (faults : Bool) where
  -- The steps of a run, in their order.
  pub data Steps (s : System) : System → Type 0 where
    done : Steps s s
    more : {t u : System} → Steps s t → Step copyn text faults t u → Steps s u

  -- A run to a state of the two threads.
  abbrev pub Leads :
      System → (i j : ℕ) → (owner waiter : Option ℕ) (p q : Pc) (mine theirs : Stack) → Type 0
  Leads s i j owner waiter p q mine theirs =
      (t : System) × Steps s t × View i j t owner waiter p q mine theirs

  pub turns :
      {s : System} {i j : ℕ} {owner waiter : Option ℕ} {p q : Pc} {mine theirs : Stack}
      → Leads s i j owner waiter p q mine theirs
      → Leads s j i owner waiter q p theirs mine
  turns (t, run, v) = (t, run, turned v)

  module _ {s : System} {i j : ℕ} (ne : i ≢ j) where
    pub calls :
        {q : Pc} {old theirs : Stack} (stack : Stack)
        → base false ≤ length stack
        → {owner waiter : Option ℕ} → Leads s i j owner waiter outside q old theirs
        → Leads s i j owner waiter (entered false) q stack theirs
    calls stack le (t, run, v) = (
      _,
      more run (call i false stack (inl v.pc_is) le),
      record {
        owner_is = v.owner_is;
        waiter_is = v.waiter_is;
        pc_is = update_self t.pc i _;
        other_pc_is = update_other t.pc i j _ ne ∙ v.other_pc_is;
        stack_is = update_self t.stack i _;
        other_stack_is = update_other t.stack i j _ ne ∙ v.other_stack_is;
      },
    )

    pub locks :
        {q : Pc} {mine theirs : Stack} {waiter : Option ℕ}
        → Leads s i j none waiter (entered false) q mine theirs
        → Leads s i j (some i) waiter (inside false) q mine theirs
    locks (t, run, v) = (
      _,
      more run (lock i false v.pc_is v.owner_is),
      record {
        owner_is = refl;
        waiter_is = v.waiter_is;
        pc_is = update_self t.pc i _;
        other_pc_is = update_other t.pc i j _ ne ∙ v.other_pc_is;
        stack_is = v.stack_is;
        other_stack_is = v.other_stack_is;
      },
    )

    pub waits_for :
        {q : Pc} {mine theirs : Stack}
        → Leads s i j (some i) none (inside false) q mine theirs
        → Leads s i j none
            (some i)
            (waiting false)
            q
            (mine ++ Value.integer (pos (narg_of false mine)) ∷ [])
            theirs
    waits_for (t, run, v) = (
      _,
      more run (wait i false v.pc_is v.waiter_is),
      record {
        owner_is = refl;
        waiter_is = refl;
        pc_is = update_self t.pc i _;
        other_pc_is = update_other t.pc i j _ ne ∙ v.other_pc_is;
        stack_is =
            update_self t.stack i _
            ∙ ap (λ xs. xs ++ Value.integer (pos (narg_of false xs)) ∷ []) v.stack_is;
        other_stack_is = update_other t.stack i j _ ne ∙ v.other_stack_is;
      },
    )

    pub swaps :
        {mine theirs : Stack}
        → Leads s i j (some i) (some j) (inside false) (waiting false) mine theirs
        → let r = exchange copyn text mine theirs 2 (narg_of false mine) in
          Leads s i j (some i) none (leaving false r.0) (woken false) r.1 r.2
    unfolding exchanged
    swaps {mine} {theirs} (t, run, v) =
        let same : exchange copyn text (t.stack i) (t.stack j) 2 (narg_of false (t.stack i))
            ≡ exchange copyn text mine theirs 2 (narg_of false mine) =
          rw (v.stack_is, v.other_stack_is) refl in
        let theirs_after : Stack =
          (exchange copyn text (t.stack i) (t.stack j) 2 (narg_of false (t.stack i))).2 in
        (
          _,
          more run (swap i j j false false v.pc_is v.waiter_is v.other_pc_is),
          record {
            owner_is = v.owner_is;
            waiter_is = refl;
            pc_is =
                update_self (update t.pc j (woken false)) i _ ∙ ap (λ r. leaving false r.0) same;
            other_pc_is =
                update_other (update t.pc j (woken false)) i j _ ne ∙ update_self t.pc j _;
            stack_is = update_self (update t.stack j theirs_after) i _ ∙ ap (λ r. r.1) same;
            other_stack_is =
                update_other (update t.stack j theirs_after) i j _ ne
                ∙ update_self t.stack j _
                ∙ ap (λ r. r.2) same;
          },
        )

    pub unlocks :
        {q : Pc} {timed : Bool} {nres : ℤ} {mine theirs : Stack} {waiter : Option ℕ}
        → Leads s i j (some i) waiter (leaving timed nres) q mine theirs
        → Leads s i j none waiter (ended (leave timed nres mine)) q mine theirs
    unlocks {timed = timed} {nres = nres} (t, run, v) = (
      _,
      more run (unlock i timed nres v.pc_is v.owner_is),
      record {
        owner_is = refl;
        waiter_is = v.waiter_is;
        pc_is = update_self t.pc i _ ∙ ap (λ xs. ended (leave timed nres xs)) v.stack_is;
        other_pc_is = update_other t.pc i j _ ne ∙ v.other_pc_is;
        stack_is = v.stack_is;
        other_stack_is = v.other_stack_is;
      },
    )

    pub resumes :
        {q : Pc} {mine theirs : Stack} {waiter : Option ℕ}
        → Leads s i j none waiter (woken false) q mine theirs
        → Leads s i j (some i) waiter (leaving false (top_integer mine)) q (pop mine) theirs
    resumes (t, run, v) = (
      _,
      more run (resume i false v.pc_is v.owner_is),
      record {
        owner_is = refl;
        waiter_is = v.waiter_is;
        pc_is = update_self t.pc i _ ∙ ap (λ xs. leaving false (top_integer xs)) v.stack_is;
        other_pc_is = update_other t.pc i j _ ne ∙ v.other_pc_is;
        stack_is = update_self t.stack i _ ∙ ap pop v.stack_is;
        other_stack_is = update_other t.stack i j _ ne ∙ v.other_stack_is;
      },
    )
