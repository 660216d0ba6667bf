-- ===== src/Base64/Tests.antt =====
-- The functions of b64/lua_b64.c on a concrete string, with a coding in which each byte has one character
-- and the rest is filled up.
use flualibs.Common.{
  ℕ, zero, suc, ◌+◌, ◌-◌, ◌*◌, ◌/◌, ◌^◌, ◌≤◌, ◌<◌, ◌≡◌, refl, ap, arith, Bool, true, false, Option,
  none, some, List, [], ◌∷◌, ◌++◌, map, length, length-append, length-map, length-replicate,
  replicate, ltb, leb, if◌then◌else◌,
}
use flualibs.Common.Int.{ℤ, pos, negsuc}
use flualibs.Lua.{Value}
use flualibs.Lua.Run.{done, Api}
use flualibs.Heap.Cells.{Same}
use flualibs.Base64.{Buffers, l_b64_encode}
use flualibs.Base64.Round.{l_b64_encode-fits}

abbrev coding : List ℕ → List ℕ
coding bs = map suc bs ++ replicate (4 * ((length bs + 2) / 3) - length bs) 0

abbrev stripped : List ℕ → List ℕ
stripped [] = []
stripped (zero ∷ cs) = []
stripped (suc b ∷ cs) = b ∷ stripped cs

abbrev ntop : List ℕ → ℕ → ℤ × List ℕ
ntop bs n =
    if ltb (length (coding bs)) n then (pos (length (coding bs)), coding bs) else (negsuc 0, [])

abbrev pton : List ℕ → ℕ → ℤ × List ℕ
pton cs n =
    if leb (3 * (length cs / 4)) n
    then (pos (length (stripped cs)), stripped cs)
    else (negsuc 0, [])

length-coding : (bs : List ℕ) → length (coding bs) ≡ 4 * ((length bs + 2) / 3)
length-coding bs = omega (
  arith,
  length-append (map suc bs) (replicate (4 * ((length bs + 2) / 3) - length bs) 0),
  length-map bs suc,
  length-replicate {A = ℕ} (4 * ((length bs + 2) / 3) - length bs) 0,
)

stripped-fill : (k : ℕ) → stripped (replicate k 0) ≡ []
stripped-fill zero = refl
stripped-fill (suc k) = refl

stripped-map : (bs : List ℕ) (k : ℕ) → stripped (map suc bs ++ replicate k 0) ≡ bs
stripped-map [] k = stripped-fill k
stripped-map (b ∷ bs) k = ap (λ cs. b ∷ cs) (stripped-map bs k)

ntop-coding :
    (bs : List ℕ) (n : ℕ)
    → length (coding bs) < 2 ^ 31
    → length (coding bs) < n
    → ntop bs n ≡ (pos (length (coding bs)), coding bs)
ntop-coding bs n small lt = ground arith

pton-coding :
    (bs : List ℕ) (n : ℕ)
    → length (coding bs) < 2 ^ 31
    → 3 * ((length bs + 2) / 3) ≤ n
    → pton (coding bs) n ≡ (pos (length bs), bs)
pton-coding bs n small le =
    let room : 3 * (length (coding bs) / 4) ≤ n = omega (arith, length-coding bs) in
    let whole : leb (3 * (length (coding bs) / 4)) n ≡ true = ground arith in
    rw (whole, stripped-map bs (4 * ((length bs + 2) / 3) - length bs)) refl

-- Only strings are converted.
abbrev bytes_of : Value → Option (List ℕ)
bytes_of (Value.string bs) = some bs
bytes_of v = none

abbrev api : Api
api = record {
  to_integer = λ v. none;
  to_string = bytes_of;
  strerror = λ e. [];
  fileno_errno = 9;
  sequence = λ v. none;
}

abbrev empty : Buffers
empty = record { cell = λ q. none; next = 1; uds = [] }

abbrev plenty : ℕ → Bool
plenty p = false

abbrev hello : List ℕ
hello = 104 ∷ 101 ∷ 108 ∷ 108 ∷ 111 ∷ []

l_b64_encode-fits_example :
    (t : Buffers) × (l_b64_encode api plenty 12 22 ntop pton (Value.string hello) empty
      ≡ done (Value.string (coding hello) ∷ []) t)
    × Same empty t
l_b64_encode-fits_example =
    l_b64_encode-fits empty (omega arith) (λ q le. refl) plenty refl api 12 22 ntop pton coding
      length-coding ntop-coding (Value.string hello) hello refl (omega arith)
