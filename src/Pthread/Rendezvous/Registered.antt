-- ===== src/Pthread/Rendezvous/Registered.antt =====
-- The mutex and the field `waiter` of a rendezvous of libpthread/lua_pthread.c, when a condition wakes
-- only threads that were signalled and no deadline passes for a thread that waits.
use flualibs.Common.{
  ℕ, ◌≡◌, refl, arith, Bool, true, false, Option, none, some, List, inl, inr, update,
}
use flualibs.Lua.{Value}
use flualibs.Pthread.Rendezvous.{
  Message, Sent, Pc, entered, inside, waiting, woken, expired, leaving, ended, System, Step,
  exchanged, Reach, start, step, call, lock, lock_expired, wait, swap, swap_unheard, spurious,
  expire, resume, resume_expired, unlock,
}

-- Threads that have the mutex, threads that are blocked on the condition, and threads whose deadline
-- passed there.
abbrev pub holds : Pc → Bool
holds (inside timed) = true
holds (leaving timed nres) = true
holds p = false

abbrev pub waits : Pc → Bool
waits (waiting timed) = true
waits p = false

waits-waiting : (p : Pc) → waits p ≡ true → (timed : Bool) × (p ≡ waiting timed)
waits-waiting (waiting timed) e = (timed, refl)
waits-waiting p e = absurd (ground arith)

abbrev pub overdue : Pc → Bool
overdue expired = true
overdue p = false

-- The owner of the mutex is the thread inside, and `waiter` is the thread that waits.
pub record Registered (owner waiter : Option ℕ) (pc : ℕ → Pc) : Type 0 where
  pub owner_holds : (i : ℕ) → owner ≡ some i → holds (pc i) ≡ true
  pub holder_owns : (i : ℕ) → holds (pc i) ≡ true → owner ≡ some i
  pub waiter_waits : (i : ℕ) → waiter ≡ some i → waits (pc i) ≡ true
  pub waiting_waiter : (i : ℕ) → waits (pc i) ≡ true → waiter ≡ some i
  pub prompt : (i : ℕ) → overdue (pc i) ≡ false

module _ {owner waiter : Option ℕ} {pc : ℕ → Pc} (r : Registered owner waiter pc) (i : ℕ) where
  open r use {owner_holds, holder_owns, waiter_waits, waiting_waiter, prompt}

  -- The thread moves and neither the mutex nor `waiter` changes.
  moves :
      (p : Pc)
      → holds (pc i) ≡ false
      → waits (pc i) ≡ false
      → holds p ≡ false
      → waits p ≡ false
      → overdue p ≡ false
      → Registered owner waiter (update pc i p)
  moves p h w hp wp o = record {
    owner_holds = λ j e. ground (arith, owner_holds j, owner_holds i);
    holder_owns = λ j e. ground (arith, holder_owns j);
    waiter_waits = λ j e. ground (arith, waiter_waits j, waiter_waits i);
    waiting_waiter = λ j e. ground (arith, waiting_waiter j);
    prompt = λ j. ground (arith, prompt j);
  }

  -- The thread takes the free mutex.
  locks :
      (p : Pc)
      → owner ≡ none
      → waits (pc i) ≡ false
      → holds p ≡ true
      → waits p ≡ false
      → overdue p ≡ false
      → Registered (some i) waiter (update pc i p)
  locks p free w hp wp o = record {
    owner_holds = λ j e. ground arith;
    holder_owns = λ j e. ground (arith, holder_owns j);
    waiter_waits = λ j e. ground (arith, waiter_waits j, waiter_waits i);
    waiting_waiter = λ j e. ground (arith, waiting_waiter j);
    prompt = λ j. ground (arith, prompt j);
  }

  -- The thread gives the mutex back.
  unlocks :
      (p : Pc)
      → owner ≡ some i
      → waits (pc i) ≡ false
      → holds p ≡ false
      → waits p ≡ false
      → overdue p ≡ false
      → Registered none waiter (update pc i p)
  unlocks p own w hp wp o = record {
    owner_holds = λ j e. ground arith;
    holder_owns = λ j e. ground (arith, holder_owns j);
    waiter_waits = λ j e. ground (arith, waiter_waits j, waiter_waits i);
    waiting_waiter = λ j e. ground (arith, waiting_waiter j);
    prompt = λ j. ground (arith, prompt j);
  }

  -- The thread gives the mutex back and waits.
  parks :
      (p : Pc)
      → owner ≡ some i
      → waiter ≡ none
      → holds p ≡ false
      → waits p ≡ true
      → overdue p ≡ false
      → Registered none (some i) (update pc i p)
  parks p own free hp wp o = record {
    owner_holds = λ j e. ground arith;
    holder_owns = λ j e. ground (arith, holder_owns j);
    waiter_waits = λ j e. ground arith;
    waiting_waiter = λ j e. ground (arith, waiting_waiter j);
    prompt = λ j. ground (arith, prompt j);
  }

  -- The thread, which has the mutex, wakes a thread that waits.
  pairs :
      (k : ℕ) (p q : Pc)
      → holds (pc i) ≡ true
      → waits (pc k) ≡ true
      → holds (pc k) ≡ false
      → holds p ≡ true
      → waits p ≡ false
      → overdue p ≡ false
      → holds q ≡ false
      → waits q ≡ false
      → overdue q ≡ false
      → Registered owner none (update (update pc k q) i p)
  pairs k p q h w hk hp wp op hq wq oq = record {
    owner_holds = λ j e. ground (arith, owner_holds j, holder_owns i);
    holder_owns = λ j e. ground (arith, holder_owns j, holder_owns i);
    waiter_waits = λ j e. ground arith;
    waiting_waiter = λ j e. ground (arith, waiting_waiter j, waiting_waiter k);
    prompt = λ j. ground (arith, prompt j);
  }

-- The state of a system without stacks.
abbrev pub IsRegistered : System → Type 0
IsRegistered s = Registered s.owner s.waiter s.pc

module _ (copyn : ℕ → List Value → Sent) (text : Message → List ℕ) where
  Step-IsRegistered : {s t : System} → Step copyn text false s t → IsRegistered s → IsRegistered t
  unfolding exchanged
  Step-IsRegistered {s} (call i timed stack (inl e) le) r =
      moves r i (entered timed) (rw e refl) (rw e refl) refl refl refl
  Step-IsRegistered {s} (call i timed stack (inr (a, e)) le) r =
      moves r i (entered timed) (rw e refl) (rw e refl) refl refl refl
  Step-IsRegistered (lock i timed e free) r =
      locks r i (inside timed) free (rw e refl) refl refl refl
  Step-IsRegistered (lock_expired i e) r =
      moves r i (ended _) (rw e refl) (rw e refl) refl refl refl
  Step-IsRegistered (wait i timed e free) r =
      parks r i (waiting timed) (r.holder_owns i (rw e refl)) free refl refl refl
  Step-IsRegistered (swap i j k timed deadline e w f) r =
      pairs r i k (leaving timed _) (woken deadline) (rw e refl) (rw f refl) (rw f refl) refl refl
        refl refl refl refl
  Step-IsRegistered {s} (swap_unheard i j timed e w unheard) r =
      let (deadline, f) = waits-waiting (s.pc j) (r.waiter_waits j w) in
      absurd (unheard j deadline f)
  Step-IsRegistered (spurious i timed e w) r = ground arith
  Step-IsRegistered (expire i e w) r = ground arith
  Step-IsRegistered (resume i timed e free) r =
      locks r i (leaving timed _) free (rw e refl) refl refl refl
  Step-IsRegistered {s} (resume_expired i e free) r = absurd (ground (arith, r.prompt i))
  Step-IsRegistered (unlock i timed nres e own) r =
      unlocks r i (ended _) own (rw e refl) refl refl refl

  -- In every state that threads reach without wakeups that nobody signalled and without deadlines that pass
  -- during a wait, the owner of the mutex is the one thread between lock and unlock, and `waiter` is
  -- the one thread that is blocked on the condition.
  pub Reach-Registered : {s : System} → Reach copyn text false s → IsRegistered s
  Reach-Registered start = record {
    owner_holds = λ j e. ground arith;
    holder_owns = λ j e. ground arith;
    waiter_waits = λ j e. ground arith;
    waiting_waiter = λ j e. ground arith;
    prompt = λ j. refl;
  }
  Reach-Registered (step h next) = Step-IsRegistered next (Reach-Registered h)

  -- A signal in a reachable state wakes the thread that `waiter` names, whose values were swapped.
  pub swap-waiter :
      {s : System}
      → Reach copyn text false s
      → (i j k : ℕ) (timed deadline : Bool) → s.pc i ≡ inside timed
      → s.waiter ≡ some j
      → s.pc k ≡ waiting deadline
      → k ≡ j
  swap-waiter h i j k timed deadline e w f =
      ground (arith, (Reach-Registered h).waiting_waiter k (rw f refl), w)
