-- ===== src/Pthread/Attr.antt =====
-- The attributes of a thread in libpthread/lua_pthread.c, as `checkattr` takes them from a table.
use flualibs.Common.{
  Bool, true, false, Option, none, some, String, List, [], ◌∷◌, ◌==◌, ◌&&◌, get_elem?,
}
use flualibs.Common.Int.{ℤ, pos, to_int, to_word}
use flualibs.Lua.{Value, Fields, getfield, Meta, same_meta, Userdata}
use flualibs.Pthread.Defs.{Lib}
use flualibs.Pthread.Create.{set_number}

-- The fields of an attribute table that are no plain numbers.
abbrev number_in : Value → Option ℤ
number_in (Value.integer n) = some n
number_in (Value.float none) = some (pos 0)
number_in (Value.float (some n)) = some n
number_in v = none

abbrev set_stack : Lib → Value → Option ℤ → Bool
set_stack lib (Value.light p) (some size) =
    lib.call "pthread_attr_setstack" (pos p ∷ pos (to_word 64 size) ∷ []) == 0
set_stack lib v size = false

abbrev stack_field : Lib → Value → Bool
stack_field lib Value.nil = true
stack_field lib (Value.table vs fs) =
    set_stack lib (getfield fs "addr") (number_in (getfield fs "size"))
stack_field lib v = false

-- A number that goes to the setter as a `size_t`.
abbrev set_size : Lib → String → Option ℤ → Bool
set_size lib setter none = false
set_size lib setter (some n) = lib.call setter (pos (to_word 64 n) ∷ []) == 0

abbrev size_field : Lib → String → Value → Bool
size_field lib setter Value.nil = true
size_field lib setter v = set_size lib setter (number_in v)

abbrev set_priority : Lib → Option ℤ → Bool
set_priority lib none = false
set_priority lib (some n) = lib.call "pthread_attr_setschedparam" (to_int n ∷ []) == 0

abbrev schedparam_field : Lib → Value → Bool
schedparam_field lib Value.nil = true
schedparam_field lib (Value.table vs fs) =
    set_priority lib (number_in (getfield fs "sched_priority"))
schedparam_field lib v = false

abbrev suspend_field : Lib → Value → Bool
suspend_field lib Value.nil = true
suspend_field lib (Value.boolean false) = true
suspend_field lib (Value.boolean true) = lib.call "pthread_attr_setcreatesuspend_np" [] == 0
suspend_field lib v = false

abbrev affinity_field : Lib → List Userdata → Value → Bool
affinity_field lib uds Value.nil = true
affinity_field lib uds (Value.userdata u) = elim (get_elem? uds u) [
  | none ↦ false
  | some d ↦
      same_meta d.meta Meta.cpuset && lib.call "pthread_attr_setaffinity_np" (pos u ∷ []) == 0
]
affinity_field lib uds v = false

-- Whether the function returns 0.
unfoldable pub checkattr : Lib → List Userdata → Fields → Bool
checkattr lib uds fs =
    stack_field lib (getfield fs "stack")
    && size_field lib "pthread_attr_setstacksize" (getfield fs "stacksize")
    && size_field lib "pthread_attr_setguardsize" (getfield fs "guardsize")
    && set_number lib "pthread_attr_setdetachstate" (getfield fs "detachstate")
    && set_number lib "pthread_attr_setinheritsched" (getfield fs "inheritsched")
    && schedparam_field lib (getfield fs "schedparam")
    && set_number lib "pthread_attr_setschedpolicy" (getfield fs "schedpolicy")
    && set_number lib "pthread_attr_setscope" (getfield fs "scope")
    && suspend_field lib (getfield fs "createsuspend_np")
    && affinity_field lib uds (getfield fs "affinity_np")
