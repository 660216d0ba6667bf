-- ===== src/Sys/Socket/Calls.antt =====
-- sys/socket/lua_socket.c: the functions that make one system call. What the kernel does is a
-- parameter; an address that it fills in is what `ss` holds after the call. The stubs that raise
-- "TODO" are recvmsg, recvmmsg, sendmsg and sendmmsg.
use flualibs.Common.{
  ℕ, Bool, true, false, not, Option, none, some, List, [], ◌∷◌, ◌==◌, if◌then◌else◌, length,
  replicate, ◌++◌,
}
use flualibs.Common.Int.{ℤ, pos, negsuc, to_word, to_int}
use flualibs.Lua.{Value}
use flualibs.Lua.Run.{
  Cmd, aborted, error, pure, raise, Api, checkinteger, optinteger, checkstring, ◌>>=◌, ◌>>◌,
}
use flualibs.Lua.Stack.{drop}
use flualibs.Utils.{success, fail, fatal, checkfd}
use flualibs.Heap.{alloc, free}
use flualibs.Sys.{Answer, result, failed, answered, bytes, Memory, fill_buffer}
use flualibs.Sys.Socket.{Sockaddr, pushaddr, checkaddr}

pub record Kernel : Type 0 where
  -- A new socket, the address, and `addrlen` after the call.
  pub accept4 : (s : ℤ) → (flags : Option ℤ) → Answer (ℤ × Sockaddr × ℕ)
  pub bind : (s : ℤ) → Sockaddr → Answer (Unit {0})
  pub connect : (s : ℤ) → Sockaddr → Answer (Unit {0})
  pub bindat : (fd s : ℤ) → Sockaddr → Answer (Unit {0})
  pub connectat : (fd s : ℤ) → Sockaddr → Answer (Unit {0})
  pub getpeername : (s : ℤ) → Answer Sockaddr
  pub getsockname : (s : ℤ) → Answer Sockaddr
  -- The value of the option, and its length.
  pub getsockopt : (s level optname : ℤ) → ℕ → Answer (List ℕ)
  pub listen : (s n : ℤ) → Answer (Unit {0})
  pub shutdown : (s n : ℤ) → Answer (Unit {0})
  pub recv : (s : ℤ) → ℕ → (flags : ℤ) → Answer (List ℕ)
  pub recvfrom : (s : ℤ) → ℕ → (flags : ℤ) → Answer (List ℕ × Sockaddr × ℕ)
  pub send : (s : ℤ) → List ℕ → (flags : ℤ) → Answer ℤ
  pub sendto : (s : ℤ) → List ℕ → (flags : ℤ) → Sockaddr → Answer ℤ
  pub setfib : ℤ → Answer (Unit {0})
  pub setsockopt : (s level optname : ℤ) → List ℕ → Answer (Unit {0})
  pub sockatmark : ℤ → Answer ℤ
  pub socket : (domain kind protocol : ℤ) → Answer ℤ
  pub socketpair : (domain kind protocol : ℤ) → Answer (ℤ × ℤ)

abbrev int_value : ℤ → List Value
int_value n = Value.integer n ∷ []

abbrev succeed : {S : Type 0} → Unit {0} → Cmd S (List Value)
succeed u = pure success

-- `lua_pushboolean`.
abbrev is_true : ℤ → Bool
is_true (pos n) = not (n == 0)
is_true (negsuc n) = true

-- `assert`.
abbrev pub asserted : {S : Type 0} → Bool → Cmd S (Unit {0})
asserted true s = pure tt s
asserted false s = aborted

abbrev todo : {S : Type 0} → Cmd S (List Value)
todo = raise (error "TODO")

unfoldable pub l_recvmsg : Cmd Memory (List Value)
l_recvmsg = todo

unfoldable pub l_recvmmsg : Cmd Memory (List Value)
l_recvmmsg = todo

unfoldable pub l_sendmsg : Cmd Memory (List Value)
l_sendmsg = todo

unfoldable pub l_sendmmsg : Cmd Memory (List Value)
l_sendmmsg = todo

abbrev accept_flags : Value → Option ℤ
accept_flags (Value.integer n) = some (to_int n)
accept_flags v = none

abbrev pub accepted : ℤ × Sockaddr × ℕ → Cmd Memory (List Value)
accepted (new_s, ss, addrlen) = do
  asserted (ss.len == addrlen)
  addr ← pushaddr ss
  pure (Value.integer new_s ∷ addr ∷ [])

abbrev push_name : Sockaddr → Cmd Memory (List Value)
push_name ss = do addr ← pushaddr ss; pure (addr ∷ [])

-- The bytes are pushed and then the address; one value is returned, the address.
abbrev pub received : List ℕ × Sockaddr × ℕ → Cmd Memory (List Value)
received (bs, ss, fromlen) = do
  asserted (ss.len == fromlen)
  let stack = Value.string bs ∷ []
  from ← pushaddr ss
  pure (drop (length stack) (stack ++ from ∷ []))

abbrev pair : ℤ × ℤ → Cmd Memory (List Value)
pair (a, b) = pure (Value.integer a ∷ Value.integer b ∷ [])

module _ (api : Api) (kernel : Kernel) where
  abbrev pub checkint : ℕ → Value → Cmd Memory ℤ
  checkint i v = do n ← checkinteger api i v; pure (to_int n)

  abbrev pub optint : ℕ → Value → ℤ → Cmd Memory ℤ
  optint i v d = do n ← optinteger api i v d; pure (to_int n)

  unfoldable pub l_accept : (v flags : Value) → Cmd Memory (List Value)
  l_accept v flags = do
    s ← checkfd api 1 v
    answered api (kernel.accept4 s (accept_flags flags)) accepted

  unfoldable pub l_bind : (v w : Value) → Cmd Memory (List Value)
  l_bind v w = do
    s ← checkfd api 1 v
    ss ← checkaddr api 2 w
    answered api (kernel.bind s ss) succeed

  unfoldable pub l_connect : (v w : Value) → Cmd Memory (List Value)
  l_connect v w = do
    s ← checkfd api 1 v
    ss ← checkaddr api 2 w
    answered api (kernel.connect s ss) succeed

  unfoldable pub l_bindat : (dir v w : Value) → Cmd Memory (List Value)
  l_bindat dir v w = do
    fd ← checkint 1 dir
    s ← checkfd api 2 v
    ss ← checkaddr api 3 w
    answered api (kernel.bindat fd s ss) succeed

  unfoldable pub l_connectat : (dir v w : Value) → Cmd Memory (List Value)
  l_connectat dir v w = do
    fd ← checkint 1 dir
    s ← checkfd api 2 v
    ss ← checkaddr api 3 w
    answered api (kernel.connectat fd s ss) succeed

  unfoldable pub l_getpeername : Value → Cmd Memory (List Value)
  l_getpeername v = do s ← checkfd api 1 v; answered api (kernel.getpeername s) push_name

  unfoldable pub l_getsockname : Value → Cmd Memory (List Value)
  l_getsockname v = do s ← checkfd api 1 v; answered api (kernel.getsockname s) push_name

  abbrev pub push_option : (oom : ℕ → Bool) → ℕ → Answer (List ℕ) → Cmd Memory (List Value)
  push_option oom optval (failed e) = do free optval; pure (fail api e)
  push_option oom optval (result bs) = do
    fill_buffer optval bs
    free optval
    pure (Value.string bs ∷ [])

  unfoldable pub l_getsockopt :
      (oom : ℕ → Bool) → (enomem : ℕ) → (v l o n : Value) → Cmd Memory (List Value)
  l_getsockopt oom enomem v l o n = do
    s ← checkfd api 1 v
    level ← checkint 2 l
    optname ← checkint 3 o
    len ← checkinteger api 4 n
    optval ← alloc oom (bytes (replicate (to_word 32 len) none))
    if optval == 0
        then fatal "malloc" enomem
        else push_option oom optval (kernel.getsockopt s level optname (to_word 32 len))

  unfoldable pub l_listen : (v n : Value) → Cmd Memory (List Value)
  l_listen v n = do
    s ← checkfd api 1 v
    backlog ← optint 2 n (negsuc 0)
    answered api (kernel.listen s backlog) succeed

  unfoldable pub l_recv : (v size opt : Value) → Cmd Memory (List Value)
  l_recv v size opt = do
    s ← checkfd api 1 v
    n ← checkinteger api 2 size
    flags ← optint 3 opt (pos 0)
    answered api (kernel.recv s (to_word 64 n) flags) (λ bs. pure (Value.string bs ∷ []))

  unfoldable pub l_recvfrom : (v size opt : Value) → Cmd Memory (List Value)
  l_recvfrom v size opt = do
    s ← checkfd api 1 v
    n ← checkinteger api 2 size
    flags ← optint 3 opt (pos 0)
    answered api (kernel.recvfrom s (to_word 64 n) flags) received

  unfoldable pub l_send : (v str opt : Value) → Cmd Memory (List Value)
  l_send v str opt = do
    s ← checkfd api 1 v
    bs ← checkstring api 2 str
    flags ← optint 3 opt (pos 0)
    answered api (kernel.send s bs flags) (λ n. pure (int_value n))

  abbrev sent_to : ℤ → List ℕ → Value → Value → Cmd Memory (List Value)
  sent_to s bs (Value.integer flags) w = do
    to ← checkaddr api 4 w
    answered api (kernel.sendto s bs (to_int flags) to) (λ n. pure (int_value n))
  sent_to s bs v w = do
    to ← checkaddr api 3 v
    answered api (kernel.sendto s bs (pos 0) to) (λ n. pure (int_value n))

  unfoldable pub l_sendto : (v str w x : Value) → Cmd Memory (List Value)
  l_sendto v str w x = do s ← checkfd api 1 v; bs ← checkstring api 2 str; sent_to s bs w x

  unfoldable pub l_setfib : Value → Cmd Memory (List Value)
  l_setfib v = do fib ← checkint 1 v; answered api (kernel.setfib fib) succeed

  unfoldable pub l_setsockopt : (v l o str : Value) → Cmd Memory (List Value)
  l_setsockopt v l o str = do
    s ← checkfd api 1 v
    level ← checkint 2 l
    optname ← checkint 3 o
    bs ← checkstring api 4 str
    answered api (kernel.setsockopt s level optname bs) succeed

  unfoldable pub l_shutdown : (v n : Value) → Cmd Memory (List Value)
  l_shutdown v n = do
    s ← checkfd api 1 v
    how ← checkint 2 n
    answered api (kernel.shutdown s how) succeed

  unfoldable pub l_sockatmark : Value → Cmd Memory (List Value)
  l_sockatmark v = do
    s ← checkfd api 1 v
    answered api (kernel.sockatmark s) (λ n. pure (Value.boolean (is_true n) ∷ []))

  unfoldable pub l_socket : (d k p : Value) → Cmd Memory (List Value)
  l_socket d k p = do
    domain ← checkint 1 d
    kind ← checkint 2 k
    protocol ← checkint 3 p
    answered api (kernel.socket domain kind protocol) (λ s. pure (int_value s))

  unfoldable pub l_socketpair : (d k p : Value) → Cmd Memory (List Value)
  l_socketpair d k p = do
    domain ← checkint 1 d
    kind ← checkint 2 k
    protocol ← checkint 3 p
    answered api (kernel.socketpair domain kind protocol) pair
