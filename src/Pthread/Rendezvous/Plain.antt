-- ===== src/Pthread/Rendezvous/Plain.antt =====
-- `exchange` of libpthread/lua_pthread.c on plain values, with the `copyn` of the same file.
use flualibs.Common.{ℕ, suc, ◌+◌, ◌≡◌, refl, Bool, false, List, ◌++◌, length}
use flualibs.Lua.{Value}
use flualibs.Pthread.Copy.{Closures, copied, copyn}
use flualibs.Pthread.Copy.Whole.{AllPlain, copyn-plain}
use flualibs.Pthread.Rendezvous.{
  Message, Sent, sent, Stack, top_integer, pop, exchange, returned, leave,
}
use flualibs.Pthread.Rendezvous.Calls.{waiting_stack, exchange-swapped}

module _ (slot : Bool) (dumps : ℕ → Bool) (from : Closures) (globals : Value) where
  -- Two calls of `exchange` with nil, booleans, light userdata, numbers and strings: where a row that
  -- `copyn` copies is sent, the thread that came second returns the values of the waiter, and the waiter
  -- those of the other.
  pub exchange-plain :
      (send : ℕ → List Value → Sent) (text : Message → List ℕ) (depth : ℕ) (to : Closures)
      → ((idx : ℕ) (vs ws : List Value) (more : Closures)
          → copyn slot dumps from globals (suc depth) idx vs to ≡ copied ws more
          → send idx vs ≡ sent ws)
      → (own other : Stack) (vs ws : List Value) → AllPlain vs
      → AllPlain ws
      → let r =
          exchange send text (own ++ vs) (waiting_stack other ws) (length own + 1) (length vs) in
        (leave false r.0 r.1 ≡ returned ws)
        × (leave false (top_integer r.2) (pop r.2) ≡ returned vs)
  exchange-plain send text depth to agrees own other vs ws pv pw =
      exchange-swapped send text own other vs ws vs ws
        (agrees (length other + 1) ws ws to
          (copyn-plain slot dumps from globals ws pw depth (length other + 1) to))
        (agrees (length own + 1) vs vs to
          (copyn-plain slot dumps from globals vs pv depth (length own + 1) to))
        refl refl
