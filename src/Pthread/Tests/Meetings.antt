-- ===== src/Pthread/Tests/Meetings.antt =====
-- Concrete threads that meet at a rendezvous of libpthread/lua_pthread.c.
use flualibs.Common.{
  ℕ, suc, ◌≡◌, refl, ap, arith, true, false, some, none, List, [], ◌∷◌, update, inl,
}
use flualibs.Common.Int.{pos}
use flualibs.Lua.{Value}
use flualibs.Pthread.Copy.{Copied, copied, out_of_stack, copyn}
use flualibs.Pthread.Rendezvous.{
  Message, Sent, sent, refused, exchange, returned, leave, top_integer, pop, Pc, inside, waiting,
  ended, System, fresh_system, Reach, start, step, call, lock, wait,
}
use flualibs.Pthread.Rendezvous.Calls.{waiting_stack}
use flualibs.Pthread.Rendezvous.Plain.{exchange-plain}
use flualibs.Pthread.Rendezvous.Registered.{IsRegistered, Reach-Registered}
use flualibs.Pthread.Rendezvous.Views.{Steps}
use flualibs.Pthread.Rendezvous.Meeting.{exchange-meets}
use flualibs.Pthread.Rendezvous.Faults.{spurious-returns_own, expire-loses}

-- Values are copied as they are, but for userdata.
abbrev copy_all : ℕ → List Value → Sent
copy_all idx [] = sent []
copy_all idx (Value.userdata u ∷ vs) = refused idx
copy_all idx (v ∷ vs) = elim (copy_all (suc idx) vs) [
  | sent ws ↦ sent (v ∷ ws)
  | refused i ↦ refused i
]

abbrev text : Message → List ℕ
text m = []

abbrev five : Value
five = Value.integer (pos 5)

abbrev yes_value : Value
yes_value = Value.boolean true

abbrev rendezvous : Value
rendezvous = Value.userdata 0

-- The rows that `copyn` copies, from a state without closures.
abbrev row_of : Copied (List Value) → Sent
row_of (copied ws more) = sent ws
row_of (Copied.refused i) = Sent.refused i
row_of out_of_stack = Sent.refused 0

abbrev send : ℕ → List Value → Sent
send idx vs = row_of (copyn true (λ proto. true) [] Value.nil 1 idx vs [])

exchange-plain_example :
    let r =
      exchange send text
        (rendezvous ∷ five ∷ [])
        (waiting_stack (rendezvous ∷ []) (yes_value ∷ five ∷ []))
        2
        1 in
    (leave false r.0 r.1 ≡ returned (yes_value ∷ five ∷ []))
    × (leave false (top_integer r.2) (pop r.2) ≡ returned (five ∷ []))
exchange-plain_example =
    exchange-plain true (λ proto. true) [] Value.nil send text 0 []
      (λ idx vs ws more e. ap row_of e) (rendezvous ∷ []) (rendezvous ∷ []) (five ∷ [])
      (yes_value ∷ five ∷ []) (refl, tt) (refl, (refl, tt))

-- The nanoseconds of the deadline come back in place of true.
-- Thread 0 waits with the value 5.
abbrev one_waits : System
one_waits = record {
  owner = none;
  waiter = some 0;
  pc =
      update (update (update (λ k. Pc.outside) 0 (Pc.entered false)) 0 (inside false)) 0
        (waiting false);
  stack =
      update (update (λ k. []) 0 (rendezvous ∷ five ∷ [])) 0
        (waiting_stack (rendezvous ∷ []) (five ∷ []));
}

Reach-one_waits : Reach copy_all text false one_waits
Reach-one_waits =
    step
      (step (step start (call 0 false (rendezvous ∷ five ∷ []) (inl refl) (omega arith)))
        (lock 0 false refl refl))
      (wait 0 false refl refl)

Reach-Registered_example : IsRegistered one_waits
Reach-Registered_example = Reach-Registered copy_all text Reach-one_waits

exchange-meets_example :
    (t : System) × Steps copy_all text false fresh_system t
    × (t.owner ≡ none)
    × (t.waiter ≡ none)
    × (t.pc 0 ≡ ended (returned (yes_value ∷ [])))
    × (t.pc 1 ≡ ended (returned (five ∷ [])))
exchange-meets_example =
    exchange-meets copy_all text false fresh_system 0 1 rendezvous rendezvous (five ∷ [])
      (yes_value ∷ []) (five ∷ []) (yes_value ∷ []) (λ e. omega (arith, e)) refl refl refl refl refl
      refl refl refl

spurious-returns_own_example :
    (t : System) × Steps copy_all text true one_waits t
    × (t.waiter ≡ some 0)
    × (t.pc 0 ≡ ended (returned (five ∷ [])))
spurious-returns_own_example =
    spurious-returns_own copy_all text one_waits 0 (rendezvous ∷ []) (five ∷ []) refl refl refl refl

-- Thread 0 is inside and thread 1 waits with a deadline.
abbrev late : System
late = record {
  owner = some 0;
  waiter = some 1;
  pc = update (update (λ k. Pc.outside) 1 (waiting true)) 0 (inside false);
  stack =
      update (update (λ k. []) 1 (waiting_stack (rendezvous ∷ five ∷ five ∷ []) (yes_value ∷ []))) 0
        (rendezvous ∷ five ∷ []);
}

expire-loses_example :
    (t : System) × Steps copy_all text true late t
    × (t.pc 0 ≡ ended (returned (yes_value ∷ [])))
    × (t.pc 1 ≡ ended (returned (Value.boolean false ∷ [])))
expire-loses_example =
    expire-loses copy_all text late 0 1 rendezvous (rendezvous ∷ five ∷ five ∷ []) (five ∷ [])
      (yes_value ∷ []) (five ∷ []) (yes_value ∷ []) (λ e. omega (arith, e)) refl refl refl refl
      (λ k timed ne e. ground arith) refl refl refl refl refl refl
