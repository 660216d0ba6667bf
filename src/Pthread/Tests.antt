-- ===== src/Pthread/Tests.antt =====
-- Concrete histories of counted objects for libpthread/lua_pthread.c.
pub mod Handlers
pub mod Copies
pub mod Meetings
pub mod Lives
use flualibs.Common.{ℕ, ◌≡◌, refl, Bool, false, Option, some, none, [], ◌∷◌, arith, update}
use flualibs.Common.Int.{pos}
use flualibs.Lua.{Value, Meta}
use flualibs.Lua.Run.{Api}
use flualibs.Utils.Cookies.{HasCookie}
use flualibs.Pthread.Defs.{Rc, RcStore, Lib}
use flualibs.Pthread.Handles.{l_pthread_mutex_gc, l_pthread_mutex_retain}
use flualibs.Pthread.Create.{l_pthread_mutex_new}
use flualibs.Pthread.Created.{Created, userdata_for}
use flualibs.Pthread.Created.Kinds.{Constructor, Constructor-Created}
use flualibs.Pthread.Methods.{l_pthread_mutex_lock}
use flualibs.Pthread.Methods.Quiet.{Answers, Any}
use flualibs.Pthread.Methods.Unchanged.{Method, Method-Answers}
use flualibs.Pthread.Ownership.{Counted, holders}
use flualibs.Pthread.Ownership.Collecting.{bury, less, answer}
use flualibs.Pthread.Ownership.History.{
  Retainer, Finaliser, destroys, constructed, shared, Reach, start, step,
}
use flualibs.Pthread.Ownership.Invariant.{Reach-Counted, Finaliser-released}

abbrev pub api : Api
api = record {
  to_integer = λ v. none;
  to_string = λ v. none;
  strerror = λ e. e ∷ [];
  fileno_errno = 9;
  sequence = λ v. none;
}

-- Every call succeeds.
abbrev pub lib : Lib
lib = record {
  call = λ name args. 0;
  out = λ name args. pos 0;
  enomem = 12;
  etimedout = 60;
  serial_thread = 0;
}

abbrev pub plenty : ℕ → Bool
plenty p = false

abbrev pub empty : RcStore
empty = record { cell = λ q. none; next = 1; uds = [] }

-- A mutex is made and retained once.
abbrev mutex_cell : ℕ → Option Rc
mutex_cell =
    update (update (λ q. none) 1 (some (record { refs = 0; handle = pos 0 }))) 1
      (some (record { refs = 1; handle = pos 0 }))

abbrev one_mutex : RcStore
one_mutex = record { cell = mutex_cell; next = 2; uds = userdata_for Meta.mutex 1 ∷ [] }

abbrev shared_mutex : RcStore
shared_mutex = record {
  cell = update mutex_cell 1 (some (record { refs = 2; handle = pos 0 }));
  next = 2;
  uds = userdata_for Meta.mutex 1 ∷ userdata_for Meta.mutex 1 ∷ [];
}

Reach-one_mutex : Reach api lib plenty one_mutex
unfolding l_pthread_mutex_new flualibs.Heap.alloc flualibs.Heap.store flualibs.Utils.new
Reach-one_mutex = step start (constructed (Constructor.mutex Value.nil) refl) (omega arith)

Reach-shared_mutex : Reach api lib plenty shared_mutex
unfolding l_pthread_mutex_retain flualibs.Heap.load flualibs.Heap.store flualibs.Utils.new
Reach-shared_mutex =
    step Reach-one_mutex (shared {p = 1} Retainer.mutex (omega arith) (omega arith) refl)
      (omega arith)

first_of : HasCookie shared_mutex 0 Meta.mutex 1
first_of = record { data_of = userdata_for Meta.mutex 1; at = refl; kind = refl; points = refl }

-- The first of the two userdata is collected.
abbrev collected_mutex : RcStore
collected_mutex =
    bury 0 (userdata_for Meta.mutex 1) (less 1 (record { refs = 2; handle = pos 0 }) shared_mutex)

Reach-Counted_example : Counted shared_mutex
Reach-Counted_example = Reach-Counted api lib plenty Reach-shared_mutex

Finaliser-released_example :
    (r : Rc) × (shared_mutex.cell 1 ≡ some r)
    × (r.refs ≡ holders 1 shared_mutex.uds)
    × (l_pthread_mutex_gc lib (Value.userdata 0) shared_mutex
        ≡ answer (destroys {lib = lib} Finaliser.mutex 1 r) r (less 1 r shared_mutex))
Finaliser-released_example =
    Finaliser-released api lib plenty Reach-shared_mutex Finaliser.mutex first_of

Constructor-Created_example :
    Created empty Meta.mutex (l_pthread_mutex_new api lib plenty Value.nil empty)
Constructor-Created_example =
    Constructor-Created empty (omega arith) (λ q le. refl) api lib plenty Meta.mutex
      (Constructor.mutex Value.nil)
