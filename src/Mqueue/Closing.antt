-- ===== src/Mqueue/Closing.antt =====
-- The end of a message queue of mqueue/lua_mqueue.c.
use flualibs.Common.{
  ℕ, ◌≡◌, refl, Bool, some, List, [], arith, get_elem?, set, get_elem?-set_self, get_elem?-lt,
  set-set, ◌∙◌, true,
}
use flualibs.Common.Int.{ℤ, negsuc}
use flualibs.Lua.{Value, Meta, same_meta, Userdata}
use flualibs.Lua.Run.{pure, done, Api}
use flualibs.Utils.{success, fail}
use flualibs.Utils.Cookies.{checkudata-done}
use flualibs.Sys.{Answer, result, failed, answered}
use flualibs.Mqueue.{Queues, Kernel, Machine, set_block, l_mq_close, l_mq_gc}

set_block-done :
    (s : Queues) (u : ℕ) (mq : ℤ) {d : Userdata}
    → get_elem? s.uds u ≡ some d
    → set_block u mq s ≡ done tt (record s { uds = set s.uds u (record d { block = some mq }) })
unfolding set_block
set_block-done s u mq at = ground arith

-- What close returns for an answer of the kernel.
abbrev pub answer_values : Api → Answer (Unit {0}) → List Value
answer_values api (result a) = success
answer_values api (failed e) = fail api e

answered-values :
    (api : Api) (x : Answer (Unit {0})) (t : Queues)
    → answered api x (λ a. pure success) t ≡ done (answer_values api x) t
answered-values api (result a) t = refl
answered-values api (failed e) t = refl

abbrev closed : Userdata → Userdata
closed d = record d { block = some (negsuc 0) }

module _ (api : Api) (machine : Machine) (kernel : Kernel) (oom : ℕ → Bool) (enomem : ℕ) where
  close-answer :
      (s : Queues) (u : ℕ) (mq : ℤ) {d : Userdata}
      → get_elem? s.uds u ≡ some d
      → same_meta d.meta Meta.mqd ≡ true
      → d.block ≡ some mq
      → l_mq_close api machine kernel oom enomem (Value.userdata u) s
        ≡ done (answer_values api (kernel.mq_close mq)) (record s { uds = set s.uds u (closed d) })
  unfolding l_mq_close
  close-answer s u mq {d} at kind block =
      rw (checkudata-done 1 Meta.mqd u s at kind, block, set_block-done s u (negsuc 0) at)
        (answered-values api (kernel.mq_close mq) (record s { uds = set s.uds u (closed d) }))

  -- A close of an open queue asks the kernel to close its descriptor, and leaves the userdata
  -- closed even if the kernel fails; the finaliser then does nothing, but a second close asks the
  -- kernel to close the descriptor -1.
  pub l_mq_close-twice :
      (s : Queues) (u : ℕ) (mq : ℤ) {d : Userdata}
      → get_elem? s.uds u ≡ some d
      → same_meta d.meta Meta.mqd ≡ true
      → d.block ≡ some mq
      → (t : Queues) × (l_mq_close api machine kernel oom enomem (Value.userdata u) s
          ≡ done (answer_values api (kernel.mq_close mq)) t)
        × (l_mq_gc api machine kernel oom enomem (Value.userdata u) t ≡ done [] t)
        × (l_mq_close api machine kernel oom enomem (Value.userdata u) t
            ≡ done (answer_values api (kernel.mq_close (negsuc 0))) t)
  unfolding l_mq_gc
  l_mq_close-twice s u mq {d} at kind block =
      let at' : get_elem? (set s.uds u (closed d)) u ≡ some (closed d) =
        get_elem?-set_self s.uds u (closed d) (get_elem?-lt s.uds u at) in
      (
        record s { uds = set s.uds u (closed d) },
        close-answer s u mq at kind block,
        rw (checkudata-done 1 Meta.mqd u (record s { uds = set s.uds u (closed d) }) at' kind) refl,
        close-answer (record s { uds = set s.uds u (closed d) }) u (negsuc 0) at' kind refl
            ∙ rw (set-set s.uds u (closed d) (closed d)) refl,
      )
