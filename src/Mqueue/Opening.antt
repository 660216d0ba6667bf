-- ===== src/Mqueue/Opening.antt =====
-- Message queues of mqueue/lua_mqueue.c that are opened with attributes, and the buffers of their
-- messages.
use flualibs.Common.{
  ℕ, ◌+◌, ◌≡◌, ◌≢◌, refl, Bool, true, false, none, some, Option, List, [], ◌∷◌, ◌++◌, get_elem?,
  update, update_self, ==-ne,
}
use flualibs.Common.Int.{ℤ, pos, negsuc, to_int, to_word}
use flualibs.Lua.{Value, Items, Fields, Meta, same_meta, Userdata}
use flualibs.Lua.Run.{Run, error, done, raised, Api, optinteger, checkinteger, checkstring}
use flualibs.Utils.{fail}
use flualibs.Utils.Cookies.{checkudata-done}
use flualibs.Heap.{alloc}
use flualibs.Heap.Cells.{free-done}
use flualibs.Sys.{Answer, result, failed}
use flualibs.Mqueue.{
  Queues, Kernel, Machine, gettable, l_mq_open, received, receive, l_mq_receive, l_mq_timedreceive,
}

module _ (api : Api) (machine : Machine) (kernel : Kernel) (oom : ℕ → Bool) (enomem : ℕ) where
  -- Four arguments with O_CREAT, a name, flags and a mode that are good, and a table of
  -- attributes, where nil cannot be indexed: open raises an error, whatever the attributes are,
  -- and the kernel is not asked, whatever it would answer.
  pub l_mq_open-attributes :
      (a b c : Value) (vs : Items) (fs : Fields) (s : Queues) {name : List ℕ} {oflag mode : ℤ}
      → api.to_string a ≡ some name
      → api.to_integer b ≡ some oflag
      → machine.has_creat (to_int oflag) ≡ true
      → api.to_integer c ≡ some mode
      → machine.index_meta Value.absent "msgsize" ≡ none
      → l_mq_open api machine kernel oom enomem (a ∷ b ∷ c ∷ Value.table vs fs ∷ []) s
        ≡ raised (error "attempt to index") (record s {
          uds =
              s.uds
              ++ record {
                meta = Meta.mqd;
                cookie = Value.nil;
                ref = Value.nil;
                block = some (negsuc 0);
              }
                ∷ [];
        })
  unfolding l_mq_open
  l_mq_open-attributes a b c vs fs s ea eb creat ec empty =
      rw (checkstring, ea, checkinteger, eb, creat, checkinteger, ec, gettable, empty) refl

  -- After an error the buffer of a receive is freed; after a message it is not.
  abbrev pub Buffered : Queues → ℕ → Answer (List ℕ × ℕ) → Run Queues (List Value) → Type 0
  Buffered s buflen (failed e) r = (t : Queues) × (r ≡ done (fail api e) t) × (t.cell s.next ≡ none)
  Buffered s buflen (result (msg, prio)) r =
      (t : Queues) × (r ≡ done (Value.string msg ∷ Value.integer (pos prio) ∷ []) t)
      × (t.cell s.next ≡ some buflen)

  module _ (s : Queues) (ne : s.next ≢ 0) (memory : oom s.next ≡ false) where
    abbrev with_buffer : ℕ → Queues
    with_buffer n = record s { cell = update s.cell s.next (some n); next = s.next + 1 }

    received-Buffered :
        (n : ℕ) (x : Answer (List ℕ × ℕ))
        → Buffered s n x (received api machine kernel oom enomem s.next x (with_buffer n))
    received-Buffered n (failed e) =
        let at = update_self s.cell s.next (some n) in
        (
          record s { cell = update (update s.cell s.next (some n)) s.next none; next = s.next + 1 },
          rw (free-done s.next (with_buffer n) ne at) refl,
          update_self (update s.cell s.next (some n)) s.next none,
        )
    received-Buffered n (result (msg, prio)) =
        (with_buffer n, refl, update_self s.cell s.next (some n))

    receive-Buffered :
        (mq : ℤ) (n : ℕ) (timeout : Option (ℤ × ℤ))
        → Buffered s n
            (kernel.mq_receive mq n timeout)
            (receive api machine kernel oom enomem mq n timeout s)
    unfolding alloc
    receive-Buffered mq n timeout =
        rw (memory, ==-ne s.next 0 ne) (received-Buffered n (kernel.mq_receive mq n timeout))

    -- With memory for the buffer, receive and timedreceive on an open queue free the buffer after
    -- an error of the kernel, and leave it allocated after a message.
    pub receive-timedreceive-Buffered :
        (u : ℕ) (size sec nsec : Value) {d : Userdata} {mq n a b : ℤ}
        → get_elem? s.uds u ≡ some d
        → same_meta d.meta Meta.mqd ≡ true
        → d.block ≡ some mq
        → api.to_integer size ≡ some n
        → api.to_integer sec ≡ some a
        → optinteger api 4 nsec (pos 0) s ≡ done b s
        → Buffered s
            (to_word 64 n)
            (kernel.mq_receive mq (to_word 64 n) none)
            (l_mq_receive api machine kernel oom enomem (Value.userdata u) size s)
          × Buffered s
              (to_word 64 n)
              (kernel.mq_receive mq (to_word 64 n) (some (a, b)))
              (l_mq_timedreceive api machine kernel oom enomem (Value.userdata u) size sec nsec s)
    unfolding l_mq_receive l_mq_timedreceive
    receive-timedreceive-Buffered u size sec nsec {mq = mq} {n = n} {a = a} {b = b} at kind block en
          ea eb =
        (
          rw (checkudata-done 1 Meta.mqd u s at kind, block, checkinteger, en)
              (receive-Buffered mq (to_word 64 n) none),
          rw (checkudata-done 1 Meta.mqd u s at kind, block, checkinteger, en, checkinteger, ea, eb)
              (receive-Buffered mq (to_word 64 n) (some (a, b))),
        )
