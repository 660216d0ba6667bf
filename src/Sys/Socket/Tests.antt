-- ===== src/Sys/Socket/Tests.antt =====
-- Concrete calls of sys/socket/lua_socket.c.
use flualibs.Common.{
  ℕ, ◌≡◌, refl, arith, Bool, false, Option, some, none, List, [], ◌∷◌, length, ◌≤◌, ◌<◌, ltb,
  if◌then◌else◌,
}
use flualibs.Common.Int.{ℤ, pos}
use flualibs.Lua.{Value, item, last, Fields}
use flualibs.Lua.Run.{done, fault, Api}
use flualibs.Utils.{checkfd}
use flualibs.Sys.{result, failed, Memory}
use flualibs.Sys.Socket.{Sockaddr, room, address_table, pushaddr, checkaddr}
use flualibs.Sys.Socket.Address.{padded, checkaddr-fits, pushaddr-checkaddr}
use flualibs.Sys.Socket.Calls.{Kernel, l_recvfrom, l_getsockopt}
use flualibs.Sys.Socket.Sendfile.{Stack, Sendfile}
use flualibs.Sys.Keeps.{KeepsCells, Fresh}
use flualibs.Sys.Socket.Answers.{l_recvfrom-without_bytes, l_getsockopt-KeepsCells}

abbrev integer_of : Value → Option ℤ
integer_of (Value.integer n) = some n
integer_of v = none

abbrev string_of : Value → Option (List ℕ)
string_of (Value.string bs) = some bs
string_of v = none

abbrev api : Api
api = record {
  to_integer = integer_of;
  to_string = string_of;
  strerror = λ e. [];
  fileno_errno = 9;
  sequence = λ v. none;
}

abbrev empty : Memory
empty = record { cell = λ q. none; next = 1; uds = [] }

empty-Fresh : Fresh empty
empty-Fresh = record { not_null = omega arith; unused = λ q h. refl }

abbrev loopback : List ℕ
loopback = 0 ∷ 80 ∷ 127 ∷ 0 ∷ 0 ∷ 1 ∷ []

abbrev loopback_fields : Fields
loopback_fields =
    Fields.field "family" (Value.integer (pos 2))
      (Fields.field "data" (Value.string loopback) Fields.end)

checkaddr-fits_example :
    (length loopback ≤ room
      → checkaddr api 2 (Value.table last loopback_fields) empty ≡ done (padded 2 loopback) empty)
    × (room < length loopback → checkaddr api 2 (Value.table last loopback_fields) empty ≡ fault)
checkaddr-fits_example = checkaddr-fits api 2 last loopback_fields empty refl refl

pushaddr-checkaddr_example :
    (a : Sockaddr) × (checkaddr api 2 (Value.table last loopback_fields) empty ≡ done a empty)
    × (pushaddr a empty ≡ done (address_table 2 loopback) empty)
    × (checkaddr api 2 (address_table 2 loopback) empty ≡ done a empty)
pushaddr-checkaddr_example =
    pushaddr-checkaddr api 2 last loopback_fields empty refl refl refl (omega arith)

abbrev headers_table : Fields
headers_table =
    Fields.field "headers" (Value.table (item (Value.string (1 ∷ [])) last) Fields.end) Fields.end

abbrev oom : ℕ → Bool
oom q = false

abbrev sendfile : Sendfile
sendfile fd s offset nbytes hdtr readahead flags = result (pos nbytes)

abbrev int : ℕ → Value
int n = Value.integer (pos n)

abbrev call : Stack → Stack
call rest = int 3 ∷ int 4 ∷ int 0 ∷ int 10 ∷ Value.table last headers_table ∷ rest

-- A kernel on which each datagram has the bytes `bs`.
abbrev datagrams : List ℕ → Kernel
datagrams bs = record {
  accept4 = λ s flags. failed 35;
  bind = λ s a. result tt;
  connect = λ s a. result tt;
  bindat = λ fd s a. result tt;
  connectat = λ fd s a. result tt;
  getpeername = λ s. failed 57;
  getsockname = λ s. result (padded 2 loopback);
  getsockopt = λ s level name size. if ltb size 1 then failed 22 else result (1 ∷ []);
  listen = λ s n. result tt;
  shutdown = λ s n. result tt;
  recv = λ s n flags. result bs;
  recvfrom = λ s n flags. result (bs, padded 2 loopback, 8);
  send = λ s str flags. result (pos (length str));
  sendto = λ s str flags a. result (pos (length str));
  setfib = λ n. result tt;
  setsockopt = λ s level name str. result tt;
  sockatmark = λ s. result (pos 0);
  socket = λ d k p. result (pos 3);
  socketpair = λ d k p. result (pos 3, pos 4);
}

l_recvfrom-without_bytes_example :
    l_recvfrom api (datagrams (1 ∷ 2 ∷ [])) (int 3) (int 8) Value.nil empty
    ≡ l_recvfrom api (datagrams (9 ∷ [])) (int 3) (int 8) Value.nil empty
l_recvfrom-without_bytes_example =
    l_recvfrom-without_bytes api (datagrams (1 ∷ 2 ∷ [])) (datagrams (9 ∷ [])) (int 3) (int 8)
      Value.nil empty (λ s n flags. refl)

-- What recvfrom gives is the address.
recvfrom_address :
    l_recvfrom api (datagrams (1 ∷ 2 ∷ [])) (int 3) (int 8) Value.nil empty
    ≡ done (address_table 2 loopback ∷ []) empty
unfolding l_recvfrom pushaddr checkfd
recvfrom_address = refl

one_byte :
    (bs' : List ℕ) (s level name : ℤ) (size : ℕ) (bs : List ℕ)
    → (datagrams bs').getsockopt s level name size ≡ result bs
    → length bs ≤ size
one_byte bs' s level name size bs e = ground arith

l_getsockopt-KeepsCells_example :
    KeepsCells empty (l_getsockopt api (datagrams []) oom 12 (int 3) (int 1) (int 2) (int 4) empty)
unfolding checkfd
l_getsockopt-KeepsCells_example =
    l_getsockopt-KeepsCells api (datagrams []) oom 12 (int 3) (int 1) (int 2) (int 4) empty-Fresh
      refl refl refl refl (one_byte [])
