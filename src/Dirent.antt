-- ===== src/Dirent.antt =====
-- dirent/lua_dirent.c: directory streams behind userdata.
pub mod Closing
pub mod Tests
use flualibs.Common.{ℕ, Bool, false, String, List, [], ◌∷◌, ◌==◌, not, if◌then◌else◌}
use flualibs.Common.Int.{ℤ, pos, to_int}
use flualibs.Lua.{Value, Items, Fields, Meta, Store}
use flualibs.Lua.Run.{Cmd, pure, Api, checkinteger, checkstring, ◌>>=◌, ◌>>◌}
use flualibs.Utils.{fail, fatal, new, setcookie, checkcookie, checkcookienull}
use flualibs.Heap.{alloc, load, store, free}

-- What `readdir` finds at a place: an entry and the next place, the end, or an error.
pub data Found : Type 0 where
  entry : (fileno kind : ℤ) → (name : List ℕ) → (next : ℤ) → Found
  finished : Found
  failing : ℕ → Found

pub data Told : Type 0 where
  place : ℤ → Told
  untold : ℕ → Told

-- The directory functions of libc: error numbers, 0 for success, and the answers for a place in a stream.
pub record Libc : Type 0 where
  pub opendir : List ℕ → ℕ
  pub fdopendir : ℤ → ℕ
  pub closedir : ℕ → ℕ
  pub readdir : ℤ → Found
  pub telldir : ℤ → Told
  pub seekdir : ℤ → ℤ
  pub dirfd : ℕ → ℤ
  pub start : ℤ

-- A `DIR` is its place in the directory.
abbrev pub Dirs : Type 0
Dirs = Store ℤ

module _ (api : Api) (libc : Libc) where
  abbrev pub opened : ℕ → Cmd Dirs (List Value)
  opened problem =
      if problem == 0
      then (do dirp ← alloc (λ p. false) libc.start; u ← new dirp Meta.dir; pure (u ∷ []))
      else pure (fail api problem)

  unfoldable pub l_opendir : Value → Cmd Dirs (List Value)
  l_opendir v = do path ← checkstring api 1 v; opened (libc.opendir path)

  unfoldable pub l_fdopendir : Value → Cmd Dirs (List Value)
  l_fdopendir v = do fd ← checkinteger api 1 v; opened (libc.fdopendir (to_int fd))

  -- `closedir` frees the stream, as closedir(3) says, and may fail nonetheless.
  abbrev pub close_stream : ℕ → Cmd Dirs (Unit {0})
  close_stream dirp = do
    free dirp
    if libc.closedir dirp == 0 then pure tt else fatal "closedir" (libc.closedir dirp)

  unfoldable pub l_closedir : Value → Cmd Dirs (List Value)
  l_closedir v = do dirp ← checkcookie 1 Meta.dir v; close_stream dirp; setcookie v 0; pure []

  unfoldable pub l_dir_gc : Value → Cmd Dirs (List Value)
  l_dir_gc v = do
    dirp ← checkcookienull 1 Meta.dir v
    if dirp == 0 then pure [] else (do close_stream dirp; pure [])

  abbrev pub entry_table : (fileno kind : ℤ) → List ℕ → Value
  entry_table fileno kind name = Value.table Items.last (
      Fields.field "fileno" (Value.integer fileno) (
        Fields.field "type" (Value.integer kind)
          (Fields.field "name" (Value.string name) Fields.end)))

  abbrev pub found : ℕ → Found → Cmd Dirs (List Value)
  found dirp (entry fileno kind name next) = do
    store dirp next
    pure (entry_table fileno kind name ∷ [])
  found dirp finished = pure []
  found dirp (failing problem) = pure (fail api problem)

  unfoldable pub l_readdir : Value → Cmd Dirs (List Value)
  l_readdir v = do dirp ← checkcookie 1 Meta.dir v; here ← load dirp; found dirp (libc.readdir here)

  abbrev pub told : Told → Cmd Dirs (List Value)
  told (place loc) = pure (Value.integer loc ∷ [])
  told (untold problem) = pure (fail api problem)

  unfoldable pub l_telldir : Value → Cmd Dirs (List Value)
  l_telldir v = do dirp ← checkcookie 1 Meta.dir v; here ← load dirp; told (libc.telldir here)

  unfoldable pub l_seekdir : (v w : Value) → Cmd Dirs (List Value)
  l_seekdir v w = do
    dirp ← checkcookie 1 Meta.dir v
    loc ← checkinteger api 2 w
    store dirp (libc.seekdir loc)
    pure []

  unfoldable pub l_rewinddir : Value → Cmd Dirs (List Value)
  l_rewinddir v = do dirp ← checkcookie 1 Meta.dir v; store dirp libc.start; pure []

  unfoldable pub l_dirfd : Value → Cmd Dirs (List Value)
  l_dirfd v = do
    dirp ← checkcookie 1 Meta.dir v
    here ← load dirp
    pure (Value.integer (libc.dirfd dirp) ∷ [])
