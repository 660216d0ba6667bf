-- ===== src/Sys/Inotify/Buffer.antt =====
-- `pushevent` of sys/inotify/lua_inotify.c: one event in the memory that a read has filled. The
-- numbers of the structure are in the order of a little-endian machine.
use flualibs.Common.{ℕ, zero, suc, ◌+◌, ◌*◌, Option, none, some, List, [], ◌∷◌, ◌==◌, if◌then◌else◌}
use flualibs.Common.Int.{pos, of_word}
use flualibs.Lua.{Value, last, Fields, field, end}
use flualibs.Lua.Stack.{drop}

infixl 5 ◌>>=◌
abbrev pub ◌>>=◌ : {A B : Type 0} → Option A → (A → Option B) → Option B
none >>= f = none
some a >>= f = f a

-- The 32-bit word at the beginning of the memory, its low byte first, and the memory behind it.
abbrev pub word : List ℕ → Option (ℕ × List ℕ)
word (a ∷ b ∷ c ∷ d ∷ area) = some (a + 256 * b + 65536 * c + 16777216 * d, area)
word area = none

-- The bytes before the first NUL, as `lua_pushstring` reads them; none if there is no NUL.
unfoldable pub c_string : List ℕ → Option (List ℕ)
c_string [] = none
c_string (zero ∷ area) = some []
c_string (suc b ∷ area) = do bs ← c_string area; some (suc b ∷ bs)

-- The field of the name, where the event has one.
unfoldable pub name_field : ℕ → List ℕ → Option Fields
unfolding c_string
name_field len area =
    if len == 0
    then some end
    else (do bs ← c_string area; some (field "name" (Value.string bs) end))

-- The table of the event at the beginning of the memory, its length, and the memory behind it; none
-- if the event runs out of the memory.
unfoldable pub pushevent : List ℕ → Option (Value × ℕ × List ℕ)
unfolding name_field
pushevent event = do
  (wd, masked) ← word event
  (mask, cookied) ← word masked
  (cookie, measured) ← word cookied
  (len, area) ← word measured
  name ← name_field len area
  some (
    Value.table last
        (field "wd" (Value.integer (of_word 32 wd)) (field "mask" (Value.integer (pos mask)) name)),
    16 + len,
    drop len area,
  )
