-- ===== src/Pthread/Rendezvous/Meeting.antt =====
-- Two threads that call `exchange` of libpthread/lua_pthread.c on one rendezvous: a run that ends both
-- calls.
use flualibs.Common.{
  ℕ, ◌≡◌, ◌≢◌, refl, sym, ap, ◌∙◌, arith, Bool, false, none, List, [], ◌∷◌, ◌++◌, length,
}
use flualibs.Common.Int.{pos}
use flualibs.Lua.{Value}
use flualibs.Pthread.Rendezvous.{
  Message, Sent, sent, top_integer, pop, returned, leave, narg_of, exchange, outside, ended, System,
}
use flualibs.Pthread.Rendezvous.Calls.{waiting_stack, exchange-swapped}
use flualibs.Pthread.Rendezvous.Views.{
  Steps, done, Leads, turns, calls, locks, waits_for, swaps, unlocks, resumes,
}

module _ (copyn : ℕ → List Value → Sent) (text : Message → List ℕ) (faults : Bool) where
  -- The stacks when the second thread has the mutex.
  exchange_places :
      (u w : Value) (vs ws : List Value)
      → exchange copyn text
          (w ∷ ws)
          ((u ∷ vs) ++ Value.integer (pos (narg_of false (u ∷ vs))) ∷ [])
          2
          (narg_of false (w ∷ ws))
        ≡ exchange copyn text (w ∷ ws) (waiting_stack (u ∷ []) vs) 2 (length ws)
  exchange_places u w vs ws =
      let first : narg_of false (u ∷ vs) ≡ length vs = omega arith in
      let second : narg_of false (w ∷ ws) ≡ length ws = omega arith in
      ap
        (λ n.
          exchange copyn text (w ∷ ws) ((u ∷ vs) ++ Value.integer (pos n) ∷ []) 2
            (narg_of false (w ∷ ws)))
        first
      ∙ ap (exchange copyn text (w ∷ ws) (waiting_stack (u ∷ []) vs) 2) second

  -- From a free rendezvous, two threads outside of calls that call `exchange`, each with values that are
  -- copied to as many values, have a run to the end of both calls, where each returns the copies of the
  -- other's values.
  pub exchange-meets :
      (s : System) (i j : ℕ) (u w : Value) (vs ws vs' ws' : List Value)
      → i ≢ j
      → s.owner ≡ none
      → s.waiter ≡ none
      → s.pc i ≡ outside
      → s.pc j ≡ outside
      → copyn 2 vs ≡ sent vs'
      → copyn 2 ws ≡ sent ws'
      → length vs' ≡ length vs
      → length ws' ≡ length ws
      → (t : System) × Steps copyn text faults s t
        × (t.owner ≡ none)
        × (t.waiter ≡ none)
        × (t.pc i ≡ ended (returned ws'))
        × (t.pc j ≡ ended (returned vs'))
  exchange-meets s i j u w vs ws vs' ws' ne free alone pi pj cv cw lv lw =
      let apart : j ≢ i = λ e. ne (sym e) in
      let here : Leads copyn text faults s i j none none outside outside (s.stack i) (s.stack j) = (
        s,
        done,
        record {
          owner_is = free;
          waiter_is = alone;
          pc_is = pi;
          other_pc_is = pj;
          stack_is = refl;
          other_stack_is = refl;
        },
      ) in
      let waits =
        waits_for copyn text faults ne
          (locks copyn text faults ne (calls copyn text faults ne (u ∷ vs) (omega arith) here)) in
      let swapped = swaps copyn text faults apart (
        locks copyn text faults apart
          (calls copyn text faults apart (w ∷ ws) (omega arith) (turns copyn text faults waits))) in
      let (t, run, v) = unlocks copyn text faults ne (
        resumes copyn text faults ne
          (turns copyn text faults (unlocks copyn text faults apart swapped))) in
      let (first, second) =
        exchange-swapped copyn text (w ∷ []) (u ∷ []) ws vs ws' vs' cv cw lv lw in
      let places = exchange_places u w vs ws in
      (
        t,
        run,
        v.owner_is,
        v.waiter_is,
        v.pc_is
            ∙ ap (λ r. ended (leave false (top_integer r.2) (pop r.2))) places
            ∙ ap ended second,
        v.other_pc_is ∙ ap (λ r. ended (leave false r.0 r.1)) places ∙ ap ended first,
      )
