-- ===== src/Analytics/Events.antt =====
-- analytics/events.go: an event and what makes it valid.
pub mod Valid
use vedox.Base.{
  ℕ, zero, suc, Bool, true, false, ◌&&◌, ◌||◌, if◌then◌else◌, Option, none, some, List, [], ◌∷◌,
  leb, ◌==◌, is_empty,
}
use vedox.Base.Dict.{Dict}
use vedox.Base.Text.{Text}

-- The values of `Properties` are of any type; the zero time is 0.
pub record Event (Any : Type 0) : Type 0 where
  pub kind : Text
  pub timestamp : ℕ
  pub session_id : Text
  pub properties : Dict Text Any

pub data EventError : Type 0 where
  empty_kind invalid_kind zero_timestamp empty_session : EventError

-- `[a-z0-9_]`
unfoldable pub is_edge : ℕ → Bool
is_edge c = leb 97 c && leb c 122 || leb 48 c && leb c 57 || (c == 95)

-- `[a-z0-9_.]`
unfoldable pub is_inner : ℕ → Bool
unfolding is_edge
is_inner c = is_edge c || (c == 46)

-- `[a-z0-9_.]{0,room}[a-z0-9_]$`
unfoldable pub match_tail : ℕ → Text → Bool
unfolding is_inner
match_tail room [] = false
match_tail room (c ∷ []) = is_edge c
match_tail zero (c ∷ d ∷ s) = false
match_tail (suc room) (c ∷ d ∷ s) = is_inner c && match_tail room (d ∷ s)

-- The expression `validKind`, its second alternative first.
unfoldable pub match_kind : Text → Bool
unfolding match_tail
match_kind [] = false
match_kind (c ∷ []) = is_edge c
match_kind (c ∷ d ∷ s) = is_edge c && match_tail 46 (d ∷ s)

-- `Validate`
unfoldable pub validate : {Any : Type 0} → Event Any → Option EventError
unfolding match_kind
validate e =
    if is_empty e.kind
    then some empty_kind
    else if match_kind e.kind
    then (if e.timestamp == 0
        then some zero_timestamp
        else if is_empty e.session_id
        then some empty_session
        else none)
    else some invalid_kind
