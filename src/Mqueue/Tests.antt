-- ===== src/Mqueue/Tests.antt =====
-- Concrete message queues of mqueue/lua_mqueue.c.
use flualibs.Common.{ℕ, ◌≡◌, refl, arith, Bool, true, false, Option, some, none, List, [], ◌∷◌}
use flualibs.Common.Int.{ℤ, pos, negsuc}
use flualibs.Lua.{Value, last, Fields, field, end, Meta, Userdata}
use flualibs.Lua.Run.{done, raised, error, Api}
use flualibs.Sys.{Answer, result, failed}
use flualibs.Mqueue.{
  Queues, Kernel, Machine, l_mq_open, l_mq_close, l_mq_gc, l_mq_receive, l_mq_timedreceive,
}
use flualibs.Mqueue.Opening.{Buffered, l_mq_open-attributes, receive-timedreceive-Buffered}
use flualibs.Mqueue.Closing.{answer_values, l_mq_close-twice}

abbrev integer_of : Value → Option ℤ
integer_of (Value.integer n) = some n
integer_of v = none

abbrev string_of : Value → Option (List ℕ)
string_of (Value.string bs) = some bs
string_of v = none

abbrev api : Api
api = record {
  to_integer = integer_of;
  to_string = string_of;
  strerror = λ e. [];
  fileno_errno = 9;
  sequence = λ v. none;
}

abbrev is_creat : ℤ → Bool
is_creat (pos n) = true
is_creat (negsuc n) = false

abbrev machine : Machine
machine = record { index_meta = λ v k. none; to_long = λ v. pos 10; has_creat = is_creat }

abbrev close_answer : ℤ → Answer (Unit {0})
close_answer (pos n) = result tt
close_answer (negsuc n) = failed 9

abbrev kernel : Kernel
kernel = record {
  mq_open = λ name oflag mode attr. result (pos 4);
  mq_close = close_answer;
  mq_unlink = λ name. result tt;
  mq_getattr = λ mq. failed 9;
  mq_setattr = λ mq flags. result tt;
  mq_notify = λ mq e. result tt;
  mq_send = λ mq msg prio timeout. result tt;
  mq_receive = λ mq n timeout. result (104 ∷ 105 ∷ [], 3);
  mq_getfd_np = λ mq. mq;
}

abbrev oom : ℕ → Bool
oom q = false

abbrev queue : Userdata
queue = record { meta = Meta.mqd; cookie = Value.nil; ref = Value.nil; block = some (pos 4) }

abbrev one_queue : Queues
one_queue = record { cell = λ q. none; next = 1; uds = queue ∷ [] }

abbrev attributes : Fields
attributes = field "maxmsg" (Value.integer (pos 10)) (field "msgsize" (Value.integer (pos 64)) end)

l_mq_open-attributes_example :
    l_mq_open api machine kernel oom 12
      (Value.string (47 ∷ 113 ∷ [])
        ∷ Value.integer (pos 512)
        ∷ Value.integer (pos 384)
        ∷ Value.table last attributes
        ∷ [])
      one_queue
    ≡ raised (error "attempt to index") (record one_queue {
      uds =
          queue
          ∷ record { meta = Meta.mqd; cookie = Value.nil; ref = Value.nil; block = some (negsuc 0) }
          ∷ [];
    })
l_mq_open-attributes_example =
    l_mq_open-attributes api machine kernel oom 12 (Value.string (47 ∷ 113 ∷ []))
      (Value.integer (pos 512)) (Value.integer (pos 384)) last attributes one_queue refl refl refl
      refl refl

receive-timedreceive-Buffered_example :
    Buffered api machine kernel oom 12 one_queue 8
      (result (104 ∷ 105 ∷ [], 3))
      (l_mq_receive api machine kernel oom 12 (Value.userdata 0) (Value.integer (pos 8)) one_queue)
    × Buffered api machine kernel oom 12 one_queue 8 (result (104 ∷ 105 ∷ [], 3)) (
        l_mq_timedreceive api machine kernel oom 12
          (Value.userdata 0)
          (Value.integer (pos 8))
          (Value.integer (pos 1))
          Value.nil
          one_queue)
receive-timedreceive-Buffered_example =
    receive-timedreceive-Buffered api machine kernel oom 12 one_queue (omega arith) refl 0
      (Value.integer (pos 8)) (Value.integer (pos 1)) Value.nil refl refl refl refl refl refl

l_mq_close-twice_example :
    (t : Queues) × (l_mq_close api machine kernel oom 12 (Value.userdata 0) one_queue
      ≡ done (answer_values api (result tt)) t)
    × (l_mq_gc api machine kernel oom 12 (Value.userdata 0) t ≡ done [] t)
    × (l_mq_close api machine kernel oom 12 (Value.userdata 0) t
        ≡ done (answer_values api (failed 9)) t)
l_mq_close-twice_example =
    l_mq_close-twice api machine kernel oom 12 one_queue 0 (pos 4) refl refl refl
