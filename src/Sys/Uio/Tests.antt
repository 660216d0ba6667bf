-- ===== src/Sys/Uio/Tests.antt =====
-- Concrete reads and writes of sys/uio/lua_uio.c.
use flualibs.Common.{ℕ, zero, suc, ◌≡◌, refl, ap, arith, false, Option, some, none, List, [], ◌∷◌}
use mathlib.Core.Path.{subst}
use flualibs.Common.Int.{ℤ, pos}
use flualibs.Lua.{Value, item, last, end}
use flualibs.Lua.Run.{Api}
use flualibs.Utils.{checkfd}
use flualibs.Sys.{Answer, result, failed, Memory}
use flualibs.Sys.Keeps.{Fresh, KeepsCells}
use flualibs.Sys.Uio.{Kernel, l_readv, l_preadv, l_writev, l_pwritev}
use flualibs.Sys.Uio.Reading.{Fits, ReadsWhole, readv-preadv-ReadsWhole}
use flualibs.Sys.Uio.Writing.{writev-pwritev-KeepsCells}

abbrev integer_of : Value → Option ℤ
integer_of (Value.integer n) = some n
integer_of v = none

abbrev api : Api
api = record {
  to_integer = integer_of;
  to_string = λ v. none;
  strerror = λ e. [];
  fileno_errno = 9;
  sequence = λ v. none;
}

-- The first buffer gets a byte, if it has room for it.
abbrev chunks_for : List ℕ → List (List ℕ)
chunks_for [] = []
chunks_for (zero ∷ lens) = []
chunks_for (suc n ∷ lens) = (65 ∷ []) ∷ []

abbrev kernel : Kernel
kernel = record {
  readv = λ fd offset lens. result (chunks_for lens, pos 1);
  writev = λ fd offset ss. failed 32;
}

chunks_for-Fits : (lens : List ℕ) → Fits (chunks_for lens) lens
chunks_for-Fits [] = tt
chunks_for-Fits (zero ∷ lens) = tt
chunks_for-Fits (suc n ∷ lens) = (omega arith, tt)

fits :
    (fd : ℤ) (offset : Option ℤ) (lens : List ℕ) (chunks : List (List ℕ)) (n : ℤ)
    → kernel.readv fd offset lens ≡ result (chunks, n)
    → Fits chunks lens
fits fd offset lens chunks n e = subst (λ c. Fits c lens) (ap chunks_in e) (chunks_for-Fits lens)
  where
    chunks_in : Answer (List (List ℕ) × ℤ) → List (List ℕ)
    chunks_in (result (cs, m)) = cs
    chunks_in (failed m) = []

abbrev empty : Memory
empty = record { cell = λ q. none; next = 1; uds = [] }

empty-Fresh : Fresh empty
empty-Fresh = record { not_null = omega arith; unused = λ q h. refl }

abbrev int : ℕ → Value
int n = Value.integer (pos n)

abbrev stale : ℕ → ℕ → ℕ
stale base i = 90

abbrev two_lengths : Value
two_lengths = Value.table (item (int 2) (item (int 1) last)) end

readv-preadv-ReadsWhole_example :
    ReadsWhole api kernel
      (pos 3)
      none
      empty
      (l_readv api kernel (λ q. false) 12 stale (int 3) two_lengths empty)
    × ReadsWhole api kernel
        (pos 3)
        (some (pos 0))
        empty
        (l_preadv api kernel (λ q. false) 12 stale (int 3) two_lengths (int 0) empty)
unfolding checkfd
readv-preadv-ReadsWhole_example =
    readv-preadv-ReadsWhole api kernel (λ q. false) 12 stale fits empty-Fresh (int 3) two_lengths
      (int 0) refl refl

abbrev two_strings : Value
two_strings = Value.table (item (Value.string (1 ∷ [])) (item (Value.string []) last)) end

writev-pwritev-KeepsCells_example :
    KeepsCells empty (l_writev api kernel (λ q. false) 12 stale (int 3) two_strings empty)
    × KeepsCells empty
        (l_pwritev api kernel (λ q. false) 12 stale (int 3) two_strings (int 0) empty)
unfolding checkfd
writev-pwritev-KeepsCells_example =
    writev-pwritev-KeepsCells api kernel (λ q. false) 12 stale empty-Fresh (int 3) two_strings
      (int 0) refl refl
