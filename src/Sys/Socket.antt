-- ===== src/Sys/Socket.antt =====
-- sys/socket/lua_socket.h: socket addresses as Lua tables.
pub mod Address
pub mod Calls
pub mod Sendfile
pub mod Filling
pub mod Arrays
pub mod Headers
pub mod Sending
pub mod Answers
pub mod Tests
use flualibs.Common.{
  ℕ, ◌+◌, ◌-◌, ◌%◌, ◌^◌, Option, none, some, List, [], ◌∷◌, if◌then◌else◌, ltb, length, replicate,
}
use flualibs.Common.Int.{ℤ, pos, to_word}
use flualibs.Lua.{Value, Items, Fields, getfield}
use flualibs.Lua.Run.{Cmd, arg_error, pure, raise, undefined, Api, ◌>>=◌}
use flualibs.Lua.Stack.{take}

-- A `struct sockaddr_storage`: `ss_len`, `ss_family`, and the 126 bytes that follow, in which
-- `sa_data` begins at once.
pub record Sockaddr : Type 0 where
  pub len : ℕ
  pub family : ℕ
  pub area : List ℕ

abbrev pub room : ℕ
room = 126

-- `memcpy` to the beginning of the area; none if it would write behind its end.
abbrev pub copied : (source area : List ℕ) → Option (List ℕ)
copied [] area = some area
copied (b ∷ bs) [] = none
copied (b ∷ bs) (x ∷ area) = elim (copied bs area) [ none ↦ none | some rest ↦ some (b ∷ rest) ]

abbrev pub address_table : ℕ → List ℕ → Value
address_table family bs = Value.table Items.last (
    Fields.field "family" (Value.integer (pos family))
      (Fields.field "data" (Value.string bs) Fields.end))

module _ {S : Type 0} where
  -- `sa_len - 2` is a size_t, so that a length below 2 is one far behind the end.
  unfoldable pub pushaddr : Sockaddr → Cmd S Value
  pushaddr addr =
      if ltb addr.len 2
      then undefined
      else if ltb (length addr.area) (addr.len - 2)
      then undefined
      else pure (address_table addr.family (take (addr.len - 2) addr.area))

  abbrev pub address_family : ℕ → Value → Cmd S ℕ
  address_family idx (Value.integer n) = pure (to_word 8 n)
  address_family idx v = raise (arg_error idx "invalid address family")

  abbrev pub address_data : Api → ℕ → Value → Cmd S (List ℕ)
  address_data api idx v = elim (api.to_string v) [
    | none ↦ raise (arg_error idx "invalid address data")
    | some bs ↦ pure bs
  ]

  abbrev pub stored : ℕ → ℕ → Option (List ℕ) → Cmd S Sockaddr
  stored family datalen none = undefined
  stored family datalen (some area) =
      pure (record { len = (datalen + 2) % 2 ^ 8; family = family; area = area })

  unfoldable pub checkaddr : Api → ℕ → Value → Cmd S Sockaddr
  checkaddr api idx (Value.table vs fs) = do
    family ← address_family idx (getfield fs "family")
    bs ← address_data api idx (getfield fs "data")
    stored family (length bs) (copied bs (replicate room 0))
  checkaddr api idx v = raise (arg_error idx "table expected")
