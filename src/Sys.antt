-- ===== src/Sys.antt =====
-- What the modules under sys/ share: the answer of a system call, and the C memory that they
-- allocate.
pub mod Keeps
pub mod Socket
pub mod Descriptor
pub mod Eventfd
pub mod Inotify
pub mod Uio
pub mod Event
pub mod Cpuset
use flualibs.Common.{
  ℕ, ◌+◌, Option, none, some, List, ◌==◌, if◌then◌else◌, ltb, length, set, [], ◌∷◌, ℕ,
}
use flualibs.Common.Int.{ℤ}
use flualibs.Lua.{Value, Store}
use flualibs.Lua.Run.{Cmd, pure, undefined, Api, ◌>>=◌}
use flualibs.Utils.{fail}
use flualibs.Heap.{load, store}

-- A system call gives a result, or -1 and an errno.
pub data Answer (A : Type 0) : Type 0 where
  result : A → Answer A
  failed : ℕ → Answer A

-- `if (call == -1) return (fail(L, errno));`, and what follows it.
abbrev pub answered :
    {S A : Type 0} → Api → Answer A → (A → Cmd S (List Value)) → Cmd S (List Value)
answered api (result a) k = k a
answered api (failed e) k = pure (fail api e)

-- Memory from malloc and calloc: bytes, of which none were not written yet, arrays of iovecs with
-- their bases and lengths, and arrays of iovecs for the bytes of Lua strings.
pub data Obj : Type 0 where
  bytes : List (Option ℕ) → Obj
  iovecs : List (ℕ × ℕ) → Obj
  strings : List (Option (List ℕ)) → Obj

abbrev pub Memory : Type 0
Memory = Store Obj

abbrev pub as_bytes : Obj → Cmd Memory (List (Option ℕ))
as_bytes (bytes bs) = pure bs
as_bytes o = undefined

abbrev pub as_iovecs : Obj → Cmd Memory (List (ℕ × ℕ))
as_iovecs (iovecs vs) = pure vs
as_iovecs o = undefined

abbrev pub as_strings : Obj → Cmd Memory (List (Option (List ℕ)))
as_strings (strings ss) = pure ss
as_strings o = undefined

-- `iov[i]` is made to point to the bytes of a string.
unfoldable pub put_string : (iov i : ℕ) → List ℕ → Cmd Memory (Unit {0})
put_string iov i bs = do
  o ← load iov
  ss ← as_strings o
  if ltb i (length ss) then store iov (strings (set ss i (some bs))) else undefined

-- The kernel writes bytes into a buffer, from its beginning; none if it would write behind its end.
unfoldable pub written : List ℕ → List (Option ℕ) → Option (List (Option ℕ))
written [] area = some area
written (b ∷ bs) [] = none
written (b ∷ bs) (x ∷ area) = elim (written bs area) [
  | none ↦ none
  | some rest ↦ some (some b ∷ rest)
]

abbrev pub put_bytes : ℕ → Option (List (Option ℕ)) → Cmd Memory (Unit {0})
put_bytes buf none = undefined
put_bytes buf (some area) = store buf (bytes area)

abbrev pub fill_buffer : ℕ → List ℕ → Cmd Memory (Unit {0})
fill_buffer buf bs = do o ← load buf; area ← as_bytes o; put_bytes buf (written bs area)
