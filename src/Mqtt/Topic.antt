-- ===== src/Mqtt/Topic.antt =====
-- src/transport/mqtt/topic.rs: the topic of an incoming publish. Strings are lists of bytes, and '/'
-- is one byte; the payloads of the errors, which are for messages, are left out.
pub mod Format
use astarte_device_sdk_rust.Common.{
  [], Bool, true, false, ◌||◌, Option, none, some, ◌∷◌, eqb, if◌then◌else◌, Result, ok, err, ◌>>=◌,
  ◌>>◌, ok_or, nat_eq, Str, str_beq, str_eq, bytes, option_eq, int_eq,
}
use astarte_device_sdk_rust.Mqtt.{ClientId, slash}

pub data TopicError : Type 0 where
  empty unknown_client_id malformed : TopicError

pub data ParsedTopic : Type 0 where
  purge_properties : ParsedTopic
  interface_path : Str → Str → ParsedTopic

-- `PURGE_PROPERTIES_TOPIC`.
unfoldable pub purge_properties_topic : Str
purge_properties_topic = bytes "control/consumer/properties"

-- `str::strip_prefix`.
unfoldable pub strip_prefix : Str → Str → Option Str
strip_prefix [] s = some s
strip_prefix (p ∷ ps) [] = none
strip_prefix (p ∷ ps) (b ∷ bs) = let rest = strip_prefix ps bs in if eqb p b then rest else none

-- `find('/')` and `split_at` there: what stands before the first slash, and the rest with the slash.
unfoldable pub split_at_slash : Str → Option (Str × Str)
split_at_slash [] = none
split_at_slash (b ∷ bs) =
    let later = split_at_slash bs in
    if eqb b slash
    then some ([], b ∷ bs)
    else elim later [ none ↦ none | some (before, rest) ↦ some (b ∷ before, rest) ]

unfoldable pub is_empty : Str → Bool
is_empty [] = true
is_empty (b ∷ bs) = false

bind : {A B : Type 0} → Option A → (A → Option B) → Option B
bind none f = none
bind (some a) f = f a

-- The topic behind `<realm>/<device_id>`.
unfoldable pub strip_client_id : ClientId → Str → Option Str
unfolding strip_prefix bind
strip_client_id id topic =
    bind (bind (strip_prefix id.realm topic) (strip_prefix (slash ∷ [])))
      (strip_prefix id.device_id)

unfoldable pub parse_rest : Str → Result TopicError ParsedTopic
unfolding split_at_slash is_empty
parse_rest rest = if str_beq rest purge_properties_topic then ok purge_properties else do
  (interface, path) ← ok_or (split_at_slash rest) malformed
  if is_empty interface || is_empty path then err malformed else ok (interface_path interface path)

unfoldable pub try_parse : ClientId → Str → Result TopicError ParsedTopic
unfolding strip_client_id parse_rest
try_parse id topic = if is_empty topic then err empty else do
  rest ← ok_or (strip_client_id id topic) unknown_client_id
  rest' ← ok_or (strip_prefix (slash ∷ []) rest) malformed
  parse_rest rest'
