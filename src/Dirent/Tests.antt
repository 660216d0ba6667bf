-- ===== src/Dirent/Tests.antt =====
-- A concrete directory stream of dirent/lua_dirent.c.
use flualibs.Common.{ℕ, ◌≡◌, refl, arith, some, none, List, [], ◌∷◌, update, if◌then◌else◌, ◌==◌}
use flualibs.Common.Int.{pos}
use flualibs.Lua.{Value, Meta, Userdata}
use flualibs.Lua.Run.{Cmd, done, raised, arg_error, Api}
use flualibs.Utils.Cookies.{HasCookie}
use flualibs.Dirent.{Libc, finished, place, Dirs, l_closedir, l_dir_gc}
use flualibs.Dirent.Closing.{Method, l_closedir-closed}

abbrev api : Api
api = record {
  to_integer = λ v. none;
  to_string = λ v. none;
  strerror = λ e. [];
  fileno_errno = 9;
  sequence = λ v. none;
}

-- The stream at 2 is closed with an error.
abbrev libc : Libc
libc = record {
  opendir = λ path. 0;
  fdopendir = λ fd. 0;
  closedir = λ dirp. if dirp == 2 then 9 else 0;
  readdir = λ here. finished;
  telldir = λ here. place here;
  seekdir = λ loc. loc;
  dirfd = λ dirp. pos dirp;
  start = pos 0;
}

abbrev directory : ℕ → Userdata
directory p = record { meta = Meta.dir; cookie = Value.light p; ref = Value.nil; block = none }

abbrev two_dirs : Dirs
two_dirs = record {
  cell = update (update (λ q. none) 1 (some (pos 0))) 2 (some (pos 0));
  next = 3;
  uds = directory 1 ∷ directory 2 ∷ [];
}

first : HasCookie two_dirs 0 Meta.dir 1
first = record { data_of = directory 1; at = refl; kind = refl; points = refl }

second : HasCookie two_dirs 1 Meta.dir 2
second = record { data_of = directory 2; at = refl; kind = refl; points = refl }

l_closedir-closed_example :
    (t : Dirs) × (l_closedir api libc (Value.userdata 0) two_dirs ≡ done [] t)
    × (t.cell 1 ≡ none)
    × ((f : Value → Cmd Dirs (List Value))
        → Method api libc f
        → f (Value.userdata 0) t ≡ raised (arg_error 1 "cookie expired") t)
    × (l_dir_gc api libc (Value.userdata 0) t ≡ done [] t)
l_closedir-closed_example = l_closedir-closed api libc first (omega arith) refl refl
