-- ===== src/Dirent/Closing.antt =====
-- What is left of a directory stream of dirent/lua_dirent.c after it was closed.
use flualibs.Common.{ℕ, ◌≡◌, ◌≢◌, refl, some, none, List, [], set, update, update_self, ==-ne}
use flualibs.Common.Int.{ℤ}
use flualibs.Lua.{Value, Meta}
use flualibs.Lua.Run.{Cmd, done, raised, fault, arg_error, fatal_error, Api}
use flualibs.Utils.Cookies.{
  HasCookie, checkcookie-done, checkcookienull-done, checkcookie-expired, setcookie-done,
  HasCookie-set,
}
use flualibs.Heap.Cells.{free-done, free-fault}
use flualibs.Dirent.{
  Libc, Dirs, l_closedir, l_dir_gc, l_readdir, l_telldir, l_seekdir, l_rewinddir, l_dirfd,
}

-- The methods on an open stream, with their other arguments.
pub data Method (api : Api) (libc : Libc) : (Value → Cmd Dirs (List Value)) → Type 0 where
  close : Method api libc (l_closedir api libc)
  read : Method api libc (l_readdir api libc)
  tell : Method api libc (l_telldir api libc)
  seek : (w : Value) → Method api libc (λ v. l_seekdir api libc v w)
  rewind : Method api libc (l_rewinddir api libc)
  fd : Method api libc (l_dirfd api libc)

module _ (api : Api) (libc : Libc) where
  Method-expired :
      {t : Dirs} {u : ℕ} {f : Value → Cmd Dirs (List Value)}
      → HasCookie t u Meta.dir 0
      → Method api libc f
      → f (Value.userdata u) t ≡ raised (arg_error 1 "cookie expired") t
  unfolding l_closedir l_readdir l_telldir l_seekdir l_rewinddir l_dirfd
  Method-expired h close = rw (checkcookie-expired h 1) refl
  Method-expired h read = rw (checkcookie-expired h 1) refl
  Method-expired h tell = rw (checkcookie-expired h 1) refl
  Method-expired h (seek w) = rw (checkcookie-expired h 1) refl
  Method-expired h rewind = rw (checkcookie-expired h 1) refl
  Method-expired h fd = rw (checkcookie-expired h 1) refl

  module _ {s : Dirs} {u p : ℕ} (h : HasCookie s u Meta.dir p) (ne : p ≢ 0) {x : ℤ}
      (at : s.cell p ≡ some x) where
    abbrev freed : Dirs
    freed = record s { cell = update s.cell p none }

    h_freed : HasCookie freed u Meta.dir p
    h_freed = record { data_of = h.data_of; at = h.at; kind = h.kind; points = h.points }

    abbrev closed : Dirs
    closed = record freed { uds = set s.uds u (record h.data_of { cookie = Value.light 0 }) }

    h_closed : HasCookie closed u Meta.dir 0
    unfolding h_freed
    h_closed = HasCookie-set h_freed 0

    -- A directory whose stream is open is closed without an error: the stream is freed, every method raises
    -- "cookie expired" from then on, and the finaliser does nothing.
    pub l_closedir-closed :
        libc.closedir p ≡ 0
        → (t : Dirs) × (l_closedir api libc (Value.userdata u) s ≡ done [] t)
          × (t.cell p ≡ none)
          × ((f : Value → Cmd Dirs (List Value))
              → Method api libc f
              → f (Value.userdata u) t ≡ raised (arg_error 1 "cookie expired") t)
          × (l_dir_gc api libc (Value.userdata u) t ≡ done [] t)
    unfolding l_closedir l_dir_gc
    l_closedir-closed ok = (
      closed,
      rw (checkcookie-done h 1 ne, free-done p s ne at, ok, setcookie-done freed u 0 h.at) refl,
      update_self s.cell p none,
      λ f m. Method-expired h_closed m,
      rw (checkcookienull-done h_closed 1) refl,
    )

    -- When `closedir` fails on an open stream, the error is raised before the cookie is cleared: the finaliser
    -- then closes the stream again, which is freed.
    pub l_dir_gc-l_closedir :
        libc.closedir p ≢ 0
        → (t : Dirs) × (l_closedir api libc (Value.userdata u) s
            ≡ raised (fatal_error "closedir" (libc.closedir p)) t)
          × (l_dir_gc api libc (Value.userdata u) t ≡ fault)
    unfolding l_closedir l_dir_gc
    l_dir_gc-l_closedir problem = (
      freed,
      rw (checkcookie-done h 1 ne, free-done p s ne at, ==-ne (libc.closedir p) 0 problem) refl,
      rw
          (
            checkcookienull-done h_freed 1,
            ==-ne p 0 ne,
            free-fault p freed ne (update_self s.cell p none),
          )
          refl,
    )
