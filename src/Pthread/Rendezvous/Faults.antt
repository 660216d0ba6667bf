-- ===== src/Pthread/Rendezvous/Faults.antt =====
-- What `exchange` and `timedexchange` of libpthread/lua_pthread.c do when a condition wakes a thread
-- that nobody signalled, and when a deadline passes while the values are swapped.
use flualibs.Common.{
  ℕ, suc, ◌+◌, ◌≡◌, ◌≢◌, refl, sym, ap, ◌∙◌, arith, Bool, true, false, Option, none, some, List, [],
  ◌∷◌, length, update, update_self, update_other,
}
use flualibs.Common.Int.{negsuc}
use flualibs.Lua.{Value}
use flualibs.Pthread.Rendezvous.{
  Message, Sent, sent, Stack, returned, leave, narg_of, exchange, Pc, inside, waiting, woken,
  expired, leaving, ended, System, exchanged, spurious, expire, swap_unheard, resume_expired,
}
use flualibs.Pthread.Rendezvous.Calls.{waiting_stack, counted-returned, exchange-swapped}
use flualibs.Pthread.Rendezvous.Views.{Steps, done, more, Leads, turns, resumes, unlocks}

module _ (copyn : ℕ → List Value → Sent) (text : Message → List ℕ) where
  -- A thread that waits in `exchange`, while no thread has the mutex, and is woken though nobody signalled
  -- has a run in which it returns its own arguments, and `waiter` still names it.
  pub spurious-returns_own :
      (s : System) (i : ℕ) (own vs : List Value)
      → s.pc i ≡ waiting false
      → s.owner ≡ none
      → s.waiter ≡ some i
      → s.stack i ≡ waiting_stack own vs
      → (t : System) × Steps copyn text true s t
        × (t.waiter ≡ some i)
        × (t.pc i ≡ ended (returned vs))
  spurious-returns_own s i own vs at free self stack =
      let ne : i ≢ suc i = λ e. omega (arith, e) in
      let awake : Leads copyn text true s i (suc i) none (some i) (woken false) (s.pc (suc i))
          (waiting_stack own vs) (s.stack (suc i)) =
        (
          _,
          more done (spurious i false refl at),
          record {
            owner_is = free;
            waiter_is = self;
            pc_is = update_self s.pc i _;
            other_pc_is = update_other s.pc i (suc i) _ ne;
            stack_is = stack;
            other_stack_is = refl;
          },
        ) in
      let (t, run, v) = unlocks copyn text true ne (resumes copyn text true ne awake) in
      (t, run, v.waiter_is, v.pc_is ∙ ap ended (counted-returned own vs (length vs) refl))

  -- The deadline of the thread `j` passes when `i` has the mutex and takes its values.
  expires :
      (s : System) (i j : ℕ) (mine theirs : Stack)
      → i ≢ j
      → s.owner ≡ some i
      → s.waiter ≡ some j
      → s.pc i ≡ inside false
      → s.pc j ≡ waiting true
      → ((k : ℕ) (timed : Bool) → j ≢ k → s.pc k ≢ waiting timed)
      → s.stack i ≡ mine
      → s.stack j ≡ theirs
      → let r = exchange copyn text mine theirs 2 (narg_of false mine) in
        Leads copyn text true s i j (some i) none (leaving false r.0) expired r.1 r.2
  unfolding exchanged
  expires s i j mine theirs ne owner waiter pi pj others si sj =
      let same : exchange copyn text (s.stack i) (s.stack j) 2 (narg_of false (s.stack i))
          ≡ exchange copyn text mine theirs 2 (narg_of false mine) =
        rw (si, sj) refl in
      let theirs_after : Stack =
        (exchange copyn text (s.stack i) (s.stack j) 2 (narg_of false (s.stack i))).2 in
      (
        _,
        more (more done (expire j refl pj)) (
            swap_unheard i j false (update_other s.pc j i expired (λ e. ne (sym e)) ∙ pi) waiter
              λ k timed e. ground (arith, others k timed, e)),
        record {
          owner_is = owner;
          waiter_is = refl;
          pc_is = update_self (update s.pc j expired) i _ ∙ ap (λ r. leaving false r.0) same;
          other_pc_is = update_other (update s.pc j expired) i j _ ne ∙ update_self s.pc j _;
          stack_is = update_self (update s.stack j theirs_after) i _ ∙ ap (λ r. r.1) same;
          other_stack_is =
              update_other (update s.stack j theirs_after) i j _ ne
              ∙ update_self s.stack j _
              ∙ ap (λ r. r.2) same;
        },
      )

  -- The thread whose deadline passed takes the mutex and leaves.
  leaves :
      {s : System} {i j : ℕ} {p : Pc} {mine theirs : Stack} {waiter : Option ℕ}
      → i ≢ j
      → Leads copyn text true s i j none waiter expired p mine theirs
      → Leads copyn text true s i j none none
          (ended (returned (Value.boolean false ∷ [])))
          p
          mine
          theirs
  leaves {i = i} {j = j} ne (t, run, v) = unlocks copyn text true ne (
    _,
    more run (resume_expired i v.pc_is v.owner_is),
    record {
      owner_is = refl;
      waiter_is = refl;
      pc_is = update_self t.pc i (leaving true (negsuc 1));
      other_pc_is = update_other t.pc i j _ ne ∙ v.other_pc_is;
      stack_is = v.stack_is;
      other_stack_is = v.other_stack_is;
    },
  )

  -- A thread `j` waits in `timedexchange`, and no other does, when a thread `i` has the mutex for `exchange`, and
  -- the values of both are copied to as many values. If the deadline passes before the signal, there is
  -- a run in which `i` returns the copies of the values of `j`, and `j` returns false without those of `i`.
  pub expire-loses :
      (s : System) (i j : ℕ) (u : Value) (other vs ws vs' ws' : List Value)
      → i ≢ j
      → s.owner ≡ some i
      → s.waiter ≡ some j
      → s.pc i ≡ inside false
      → s.pc j ≡ waiting true
      → ((k : ℕ) (timed : Bool) → j ≢ k → s.pc k ≢ waiting timed)
      → s.stack i ≡ u ∷ vs
      → s.stack j ≡ waiting_stack other ws
      → copyn (length other + 1) ws ≡ sent ws'
      → copyn 2 vs ≡ sent vs'
      → length ws' ≡ length ws
      → length vs' ≡ length vs
      → (t : System) × Steps copyn text true s t
        × (t.pc i ≡ ended (returned ws'))
        × (t.pc j ≡ ended (returned (Value.boolean false ∷ [])))
  expire-loses s i j u other vs ws vs' ws' ne owner waiter pi pj others si sj cw cv lw lv =
      let late =
        expires s i j (u ∷ vs) (waiting_stack other ws) ne owner waiter pi pj others si sj in
      let apart : j ≢ i = λ e. ne (sym e) in
      let (t, run, v) = leaves apart (turns copyn text true (unlocks copyn text true ne late)) in
      let count : narg_of false (u ∷ vs) ≡ length vs = omega arith in
      let (first, second) = exchange-swapped copyn text (u ∷ []) other vs ws vs' ws' cw cv lw lv in
      (
        t,
        run,
        v.other_pc_is
            ∙ ap
                (λ n.
                  let r = exchange copyn text (u ∷ vs) (waiting_stack other ws) 2 n in
                  ended (leave false r.0 r.1))
                count
            ∙ ap ended first,
        v.pc_is,
      )
