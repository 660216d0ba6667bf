-- ===== src/Sys/Inotify.antt =====
-- sys/inotify/lua_inotify.c: watches of the file system behind userdata, and the events that are
-- read.
pub mod Buffer
pub mod Events
pub mod Reading
pub mod Tests
use flualibs.Common.{ℕ, zero, suc, ◌-◌, Option, none, some, List, [], ◌∷◌, ◌++◌, length}
use flualibs.Common.Int.{ℤ, pos, to_int, to_word}
use flualibs.Lua.{Value, Meta, Items, last, item, end}
use flualibs.Lua.Run.{
  Cmd, pure, undefined, out_of_fuel, Api, checkinteger, optinteger, checkstring, ◌>>=◌, ◌>>◌,
}
use flualibs.Utils.{success, fail}
use flualibs.Sys.{Answer, answered}
use flualibs.Sys.Inotify.Buffer.{pushevent}
use flualibs.Sys.Descriptor.{
  World, system_call, checknil, open_descriptor, newdescriptor, close_value,
}

-- The calls of the kernel, on its state. A read gives the bytes that it puts at the beginning of
-- `event`, a structure of 272 bytes on the stack, and what the structure holds behind them, which
-- is left from before.
pub record Kernel (K : Type 0) : Type 0 where
  pub inotify_init1 : ℤ → K → Answer ℤ × K
  pub close : ℤ → K → Answer (Unit {0}) × K
  pub read : ℤ → K → Answer (List ℕ × List ℕ) × K
  pub inotify_add_watch : ℤ → List ℕ → ℕ → K → Answer ℤ × K
  pub inotify_add_watch_at : ℤ → ℤ → List ℕ → ℕ → K → Answer ℤ × K
  pub inotify_rm_watch : ℤ → ℤ → K → Answer (Unit {0}) × K

module _ {K : Type 0} where
  -- An event is put before those that follow it.
  abbrev pub next_event :
      ℕ → (List ℕ → ℕ → Cmd (World K) Items) → Option (Value × ℕ × List ℕ) → Cmd (World K) Items
  next_event resid rest none = undefined
  next_event resid rest (some (event, len, area)) = do
    events ← rest area (resid - len)
    pure (item event events)

  -- The loop of `l_inotify_read`: `resid` bytes are left. A residue below 0 ends it as 0 does.
  unfoldable pub read_events : (fuel : ℕ) → List ℕ → (resid : ℕ) → Cmd (World K) Items
  read_events fuel area zero = pure last
  read_events zero area (suc resid) = λ w. out_of_fuel
  read_events (suc fuel) area (suc resid) =
      next_event (suc resid) (read_events fuel) (pushevent area)

  abbrev pub events_of : List ℕ × List ℕ → Cmd (World K) (List Value)
  events_of (bs, stale) = do
    events ← read_events (length bs) (bs ++ stale) (length bs)
    pure (Value.table events end ∷ [])

module _ {K : Type 0} (api : Api) (kernel : Kernel K) where
  abbrev pub checkinotifynil : ℕ → Value → Cmd (World K) Value
  checkinotifynil idx v = checknil Meta.inotify idx v

  abbrev pub checkinotify : ℕ → Value → Cmd (World K) ℤ
  checkinotify idx v = do
    filedesc ← checkinotifynil idx v
    open_descriptor "invalid inotify fd (closed)" idx filedesc

  abbrev pub newinotify : ℤ → Cmd (World K) (List Value)
  newinotify fd = newdescriptor Meta.inotify fd

  unfoldable pub l_inotify_init : Value → Cmd (World K) (List Value)
  l_inotify_init opt = do
    flags ← optinteger api 1 opt (pos 0)
    fd ← system_call (kernel.inotify_init1 (to_int flags))
    answered api fd newinotify

  unfoldable pub l_inotify_close : Value → Cmd (World K) (List Value)
  l_inotify_close v = do filedesc ← checkinotifynil 1 v; close_value api kernel.close v filedesc

  unfoldable pub l_inotify_fileno : Value → Cmd (World K) (List Value)
  l_inotify_fileno v = do fd ← checkinotify 1 v; pure (Value.integer fd ∷ [])

  unfoldable pub l_inotify_read : Value → Cmd (World K) (List Value)
  unfolding read_events
  l_inotify_read v = do
    fd ← checkinotify 1 v
    got ← system_call (kernel.read fd)
    answered api got events_of

  unfoldable pub l_inotify_add_watch : (v path opt : Value) → Cmd (World K) (List Value)
  l_inotify_add_watch v path opt = do
    fd ← checkinotify 1 v
    pathname ← checkstring api 2 path
    mask ← checkinteger api 3 opt
    wd ← system_call (kernel.inotify_add_watch fd pathname (to_word 32 mask))
    answered api wd (λ n. pure (Value.integer n ∷ []))

  unfoldable pub l_inotify_add_watch_at : (v dir path opt : Value) → Cmd (World K) (List Value)
  l_inotify_add_watch_at v dir path opt = do
    fd ← checkinotify 1 v
    dfd ← checkinteger api 2 dir
    pathname ← checkstring api 3 path
    mask ← checkinteger api 4 opt
    wd ← system_call (kernel.inotify_add_watch_at fd (to_int dfd) pathname (to_word 32 mask))
    answered api wd (λ n. pure (Value.integer n ∷ []))

  unfoldable pub l_inotify_rm_watch : (v w : Value) → Cmd (World K) (List Value)
  l_inotify_rm_watch v w = do
    fd ← checkinotify 1 v
    wd ← checkinteger api 2 w
    a ← system_call (kernel.inotify_rm_watch fd (to_int wd))
    answered api a (λ u. pure success)

  unfoldable pub l_inotify_wrap : Value → Cmd (World K) (List Value)
  l_inotify_wrap v = do fd ← checkinteger api 1 v; newinotify (to_int fd)
