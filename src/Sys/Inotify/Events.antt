-- ===== src/Sys/Inotify/Events.antt =====
-- The events that sys/inotify/lua_inotify.c reads, against the format in which the kernel writes
-- them, inotify(2).
use flualibs.Common.{
  ℕ, zero, suc, ◌+◌, ◌-◌, ◌*◌, ◌/◌, ◌%◌, ◌^◌, ◌≤◌, ◌<◌, ◌≡◌, ◌≢◌, refl, ap, ◌∙◌, arith, Option,
  none, some, List, [], ◌∷◌, ◌++◌, length, replicate, length-append, ◌==◌, false,
}
use mathlib.Core.List.{append_assoc}
use flualibs.Common.Int.{pos, of_word}
use flualibs.Lua.{Value, Items, last, item, Fields, field, end}
use flualibs.Lua.Run.{done}
use flualibs.Lua.Stack.{drop-append}
use flualibs.Sys.Descriptor.{World}
use flualibs.Sys.Inotify.Buffer.{c_string, name_field, pushevent}
use flualibs.Sys.Inotify.{read_events, next_event}

-- An event; a name comes with the number of NULs that pad it behind the one that ends it.
pub record Event : Type 0 where
  pub wd : ℕ
  pub mask : ℕ
  pub cookie : ℕ
  pub name : Option (List ℕ × ℕ)

abbrev pub le32 : ℕ → List ℕ
le32 n = n % 256 ∷ n / 256 % 256 ∷ n / 65536 % 256 ∷ n / 16777216 % 256 ∷ []

abbrev pub name_area : Option (List ℕ × ℕ) → List ℕ
name_area none = []
name_area (some (bs, pad)) = bs ++ zero ∷ replicate pad 0

-- The bytes of an event.
abbrev pub event_bytes : Event → List ℕ
event_bytes e =
    le32 e.wd
    ++ (le32 e.mask ++ (le32 e.cookie ++ (le32 (length (name_area e.name)) ++ name_area e.name)))

abbrev pub name_fields : Option (List ℕ × ℕ) → Fields
name_fields none = end
name_fields (some (bs, pad)) = field "name" (Value.string bs) end

-- What Lua gets of an event.
abbrev pub event_value : Event → Value
event_value e = Value.table last (
    field "wd" (Value.integer (of_word 32 e.wd))
      (field "mask" (Value.integer (pos e.mask)) (name_fields e.name)))

abbrev pub NoNul : List ℕ → Type 0
NoNul [] = Unit
NoNul (b ∷ bs) = (b ≢ 0) × NoNul bs

abbrev pub NameNoNul : Option (List ℕ × ℕ) → Type 0
NameNoNul none = Unit
NameNoNul (some (bs, pad)) = NoNul bs

pub record IsValid (e : Event) : Type 0 where
  pub wd_word : e.wd < 2 ^ 32
  pub mask_word : e.mask < 2 ^ 32
  pub cookie_word : e.cookie < 2 ^ 32
  pub len_word : length (name_area e.name) < 2 ^ 32
  pub no_nul : NameNoNul e.name

-- What `word` makes of the four bytes.
sum_le32 :
    (n : ℕ)
    → n < 2 ^ 32
    → n % 256 + 256 * (n / 256 % 256) + 65536 * (n / 65536 % 256) + 16777216 * (n / 16777216 % 256)
      ≡ n
sum_le32 n h = omega arith

c_string-append : (bs area : List ℕ) → NoNul bs → c_string (bs ++ zero ∷ area) ≡ some bs
unfolding c_string
c_string-append [] area h = refl
c_string-append (zero ∷ bs) area h = absurd (h.0 refl)
c_string-append (suc b ∷ bs) area h = rw (c_string-append bs area h.1) refl

name_field-name_area :
    (name : Option (List ℕ × ℕ)) (area : List ℕ)
    → NameNoNul name
    → name_field (length (name_area name)) (name_area name ++ area) ≡ some (name_fields name)
unfolding name_field
name_field-name_area none area h = refl
name_field-name_area (some (bs, pad)) area h =
    let n : (length (bs ++ zero ∷ replicate pad 0) == 0) ≡ false =
      ground (arith, length-append bs (zero ∷ replicate pad 0)) in
    rw (n, append_assoc, c_string-append bs (replicate pad 0 ++ area) h) refl

pushevent-event_bytes :
    (e : Event) (area : List ℕ)
    → IsValid e
    → pushevent (event_bytes e ++ area) ≡ some (event_value e, 16 + length (name_area e.name), area)
unfolding pushevent
pushevent-event_bytes e area v =
    rw
      (
        sum_le32 e.wd v.wd_word,
        sum_le32 e.mask v.mask_word,
        sum_le32 (length (name_area e.name)) v.len_word,
        name_field-name_area e.name area v.no_nul,
        drop-append (name_area e.name) area,
      )
      refl

abbrev pub all_bytes : List Event → List ℕ
all_bytes [] = []
all_bytes (e ∷ es) = event_bytes e ++ all_bytes es

abbrev pub values : List Event → Items
values [] = last
values (e ∷ es) = item (event_value e) (values es)

abbrev pub AllValid : List Event → Type 0
AllValid [] = Unit
AllValid (e ∷ es) = IsValid e × AllValid es

length-event_bytes : (e : Event) → length (event_bytes e) ≡ 16 + length (name_area e.name)
length-event_bytes e = omega arith

pub read_events-all_bytes :
    {K : Type 0} (fuel : ℕ) (es : List Event) (stale : List ℕ) (w : World K)
    → AllValid es
    → length (all_bytes es) ≤ fuel
    → read_events fuel (all_bytes es ++ stale) (length (all_bytes es)) w ≡ done (values es) w
unfolding read_events
read_events-all_bytes zero [] stale w v h = refl
read_events-all_bytes (suc fuel) [] stale w v h = refl
read_events-all_bytes zero (e ∷ es) stale w v h =
    absurd (omega (arith, length-append (event_bytes e) (all_bytes es)))
read_events-all_bytes (suc fuel) (e ∷ es) stale w v h =
    let whole = length-append (event_bytes e) (all_bytes es) in
    let left : length (all_bytes (e ∷ es)) - (16 + length (name_area e.name))
        ≡ length (all_bytes es) =
      omega (arith, whole) in
    ap (λ x. next_event (length (all_bytes (e ∷ es))) (read_events fuel) x w)
      (ap pushevent (append_assoc (event_bytes e) (all_bytes es) stale)
        ∙ pushevent-event_bytes e (all_bytes es ++ stale) v.0)
    ∙ rw (left, read_events-all_bytes fuel es stale w v.1 (omega (arith, whole))) refl
