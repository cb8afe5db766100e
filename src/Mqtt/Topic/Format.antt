-- ===== src/Mqtt/Topic/Format.antt =====
-- Which topics `try_parse` accepts, and what it reads from them.
use astarte_device_sdk_rust.Common.{
  ℕ, ◌≡◌, refl, ap, ◌∙◌, ◌≢◌, inl, inr, false, Option, none, some, [], ◌∷◌, ◌++◌, arith, eqb,
  Bool-cases, Option-cases, ok, nat_eq, Str, str_beq, str_beq_iff, str_eq, option_eq, int_eq,
}
use astarte_device_sdk_rust.Mqtt.{ClientId, slash, show}
use astarte_device_sdk_rust.Mqtt.Topic.{
  ParsedTopic, purge_properties, interface_path, purge_properties_topic, strip_prefix,
  split_at_slash, is_empty, bind, strip_client_id, parse_rest, try_parse,
}

-- No byte is a slash.
abbrev pub HasNoSlash : Str → Type 0
HasNoSlash [] = Unit
HasNoSlash (b ∷ bs) = (eqb b slash ≡ false) × HasNoSlash bs

strip_prefix-append : (p s : Str) → strip_prefix p (p ++ s) ≡ some s
unfolding strip_prefix
strip_prefix-append [] s = refl
strip_prefix-append (b ∷ p) s = ground (arith, strip_prefix-append p s)

strip_prefix-some : (p s r : Str) → strip_prefix p s ≡ some r → s ≡ p ++ r
unfolding strip_prefix
strip_prefix-some [] s r h = ground arith
strip_prefix-some (b ∷ p) [] r h = cc
strip_prefix-some (b ∷ p) (c ∷ s) r h = ground (arith, strip_prefix-some p s r)

split-append : (i r : Str) → HasNoSlash i → split_at_slash (i ++ slash ∷ r) ≡ some (i, slash ∷ r)
unfolding split_at_slash
split-append [] r h = refl
split-append (b ∷ i) r h = ground (arith, split-append i r h.1)

-- What a successful split gives.
abbrev Splits : Str → Str → Str → Type 0
Splits s i p = (s ≡ i ++ p) × HasNoSlash i × ((r : Str) × (p ≡ slash ∷ r))

Splits-cons : (b : ℕ) (s i p : Str) → eqb b slash ≡ false → Splits s i p → Splits (b ∷ s) (b ∷ i) p
Splits-cons b s i p ne (e, clear, (r, q)) = (ap (◌∷◌ b) e, (ne, clear), (r, q))

split-some : (s i p : Str) → split_at_slash s ≡ some (i, p) → Splits s i p
unfolding split_at_slash
split-some [] i p h = cc
split-some (b ∷ s) i p h = elim (Bool-cases (eqb b slash)) [
  | inl here ↦
      let e : i ≡ [] = ground arith in
      let q : p ≡ b ∷ s = ground arith in rw (e, q) (refl, tt, (s, ground arith))
  | inr ne ↦ elim (Option-cases (split_at_slash s)) [
    | inl e ↦ absurd (ground arith)
    | inr ((i', p'), e) ↦
        let e1 : i ≡ b ∷ i' = ground arith in
        let e2 : p ≡ p' = ground arith in
        rw (e1, e2) (Splits-cons b s i' p' ne (split-some s i' p' e))
  ]
]

str_append_assoc : (a b c : Str) → (a ++ b) ++ c ≡ a ++ (b ++ c)
str_append_assoc [] b c = refl
str_append_assoc (x ∷ a) b c = ap (◌∷◌ x) (str_append_assoc a b c)

-- A topic of the client.
abbrev pub topic_of : ClientId → Str → Str
topic_of id rest = show id ++ slash ∷ rest

strip_client_id-append :
    (id : ClientId) (rest : Str) → strip_client_id id (show id ++ rest) ≡ some rest
unfolding strip_client_id show
strip_client_id-append id rest = ground (
  arith,
  str_append_assoc id.realm (slash ∷ id.device_id) rest,
  strip_prefix-append id.realm (slash ∷ id.device_id ++ rest),
  strip_prefix-append (slash ∷ []) (id.device_id ++ rest),
  strip_prefix-append id.device_id rest,
)

append-nonempty : (a : Str) (b : ℕ) (c d : Str) → is_empty ((a ++ b ∷ c) ++ d) ≡ false
unfolding is_empty
append-nonempty [] b c d = refl
append-nonempty (x ∷ a) b c d = refl

topic-nonempty : (id : ClientId) (rest : Str) → is_empty (topic_of id rest) ≡ false
unfolding is_empty show
topic-nonempty id rest = append-nonempty id.realm slash id.device_id (slash ∷ rest)

bind-some :
    {A B : Type 0} (m : Option A) (f : A → Option B) (b : B)
    → bind m f ≡ some b
    → (a : A) × (m ≡ some a) × (f a ≡ some b)
unfolding bind
bind-some none f b h = cc
bind-some (some a) f b h = (a, refl, h)

strip_client_id-some :
    (id : ClientId) (topic rest : Str)
    → strip_client_id id topic ≡ some rest
    → topic ≡ show id ++ rest
unfolding strip_client_id show
strip_client_id-some id topic rest h =
    let (s, e, f) =
      bind-some (bind (strip_prefix id.realm topic) (strip_prefix (slash ∷ [])))
        (strip_prefix id.device_id) rest h in
    let (t, e', f') = bind-some (strip_prefix id.realm topic) (strip_prefix (slash ∷ [])) s e in
    ground (
      arith,
      strip_prefix-some id.realm topic t e',
      strip_prefix-some (slash ∷ []) t s f',
      strip_prefix-some id.device_id s rest f,
      str_append_assoc id.realm (slash ∷ id.device_id) rest,
    )

parse_rest_complete :
    (i r : Str)
    → i ≢ []
    → HasNoSlash i
    → i ++ slash ∷ r ≢ purge_properties_topic
    → parse_rest (i ++ slash ∷ r) ≡ ok (interface_path i (slash ∷ r))
unfolding parse_rest
parse_rest_complete [] r ne clear np = absurd (ne refl)
parse_rest_complete (b ∷ i) r ne clear np =
    ground (
      arith,
      split-append (b ∷ i) r clear,
      str_beq_iff ((b ∷ i) ++ slash ∷ r) purge_properties_topic,
    )

-- What a parsed rest stands for.
abbrev pub Reads : Str → ParsedTopic → Type 0
Reads rest purge_properties = rest ≡ purge_properties_topic
Reads rest (interface_path i p) =
    (rest ≡ i ++ p)
    × (i ≢ [])
    × HasNoSlash i
    × ((r : Str) × (p ≡ slash ∷ r))
    × (rest ≢ purge_properties_topic)

parse_rest_sound : (rest : Str) (t : ParsedTopic) → parse_rest rest ≡ ok t → Reads rest t
unfolding parse_rest
parse_rest_sound rest t h = elim (Bool-cases (str_beq rest purge_properties_topic)) [
  | inl same ↦
      let e : t ≡ purge_properties = ground arith in
      rw e ((str_beq_iff rest purge_properties_topic).0 same)
  | inr other ↦ elim (Option-cases (split_at_slash rest)) [
    | inl e ↦ absurd (ground arith)
    | inr ((i, p), e) ↦
        let (q, clear, tail') = split-some rest i p e in
        let f : t ≡ interface_path i p = ground arith in
        let ne : i ≢ [] = λ empty. ground arith in
        rw f (q, ne, clear, tail', λ same. ground (arith, str_beq_iff rest purge_properties_topic))
  ]
]

try_parse-step : (id : ClientId) (rest : Str) → try_parse id (topic_of id rest) ≡ parse_rest rest
unfolding try_parse
try_parse-step id rest = ground (
  arith,
  strip_client_id-append id (slash ∷ rest),
  strip_prefix-append (slash ∷ []) rest,
  topic-nonempty id rest,
)

-- The topic `<realm>/<device_id>/<interface><path>` of the client, where the interface is not empty
-- and has no slash, the path begins with a slash, and the two are not the topic of the purge, is read
-- as that interface and that path.
pub try_parse-interface_path :
    (id : ClientId) (interface rest : Str)
    → interface ≢ []
    → HasNoSlash interface
    → interface ++ slash ∷ rest ≢ purge_properties_topic
    → try_parse id (topic_of id (interface ++ slash ∷ rest))
      ≡ ok (interface_path interface (slash ∷ rest))
try_parse-interface_path id interface rest ne clear other =
    try_parse-step id (interface ++ slash ∷ rest)
    ∙ parse_rest_complete interface rest ne clear other

-- A topic that is accepted is one of the client: behind `<realm>/<device_id>/` it has the topic of
-- the purge, if that is the reading, or else the interface, not empty and with no slash, and then the
-- path, which begins with a slash.
pub try_parse-Reads :
    (id : ClientId) (topic : Str) (t : ParsedTopic)
    → try_parse id topic ≡ ok t
    → (rest : Str) × (topic ≡ topic_of id rest) × Reads rest t
unfolding try_parse
try_parse-Reads id topic t h = elim (Option-cases (strip_client_id id topic)) [
  | inl e ↦ absurd (ground arith)
  | inr (rest, e) ↦ elim (Option-cases (strip_prefix (slash ∷ []) rest)) [
    | inl e' ↦ absurd (ground arith)
    | inr (rest', e') ↦
        let parsed : parse_rest rest' ≡ ok t = ground arith in
        (
          rest',
          strip_client_id-some id topic rest e
              ∙ ap (λ (r : Str). show id ++ r) (strip_prefix-some (slash ∷ []) rest rest' e'),
          parse_rest_sound rest' t parsed,
        )
  ]
]
