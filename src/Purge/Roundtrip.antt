-- ===== src/Purge/Roundtrip.antt =====
-- Encoding the names of properties and extracting them again.
use mathlib.Core.List.{append_assoc}
use astarte_device_sdk_rust.Common.{
  ℕ, ◌+◌, ◌/◌, ◌%◌, ◌^◌, ◌≤◌, ◌<◌, ◌≡◌, refl, ap, ◌≢◌, Bool, true, false, Option, some, List, [],
  ◌∷◌, ◌++◌, arith, dec_lt, ltb, eqb, if◌then◌else◌, length, tail, All, length-append, append_nil,
  ok, err, is_ok, nat_eq, Str, str_eq, option_eq, int_eq,
}
use astarte_device_sdk_rust.Mqtt.Error.{invalid}
use astarte_device_sdk_rust.Purge.{
  to_be_bytes, from_be_bytes, encode_set_properties, read_properties, extract_set_properties,
  semicolon, from_be_bytes, split, Encoder, encode_prop, encode_rest,
}

-- No byte of the name is a semicolon.
abbrev pub HasNoSemicolon : Str → Type 0
HasNoSemicolon [] = Unit
HasNoSemicolon (b ∷ bs) = (eqb b semicolon ≡ false) × HasNoSemicolon bs

-- The names behind one another, each after a semicolon.
abbrev pub behind : List Str → Str
behind [] = []
behind (name ∷ rest) = semicolon ∷ name ++ behind rest

abbrev pub joined : List Str → Str
joined [] = []
joined (name ∷ rest) = name ++ behind rest

from-to_be_bytes :
    (n : ℕ)
    → n < 2 ^ 32
    → from_be_bytes ((n / 2 ^ 24) % 256) ((n / 2 ^ 16) % 256) ((n / 2 ^ 8) % 256) (n % 256) ≡ n
unfolding from_be_bytes
from-to_be_bytes n h = omega arith

split-word :
    (name tail : Str) (words : List Str)
    → HasNoSemicolon name
    → split semicolon tail ≡ [] ∷ words
    → split semicolon (name ++ tail) ≡ name ∷ words
unfolding split
split-word [] tail words h e = e
split-word (b ∷ name) tail words h e = ground (arith, h.0, split-word name tail words h.1 e)

split-behind :
    (rest : List Str) → All HasNoSemicolon rest → split semicolon (behind rest) ≡ [] ∷ rest
unfolding split
split-behind [] h = refl
split-behind (name ∷ rest) h =
    ap (◌∷◌ []) (split-word name (behind rest) rest h.0 (split-behind rest h.1))

split-joined :
    (names : List Str)
    → names ≢ []
    → All HasNoSemicolon names
    → split semicolon (joined names) ≡ names
split-joined [] ne h = absurd (ne refl)
split-joined (name ∷ rest) ne h = split-word name (behind rest) rest h.0 (split-behind rest h.1)

-- The encoder after the rest of the names.
abbrev after_rest : Encoder → List Str → Encoder
after_rest e rest = record {
  written = e.written ++ behind rest;
  uncompressed_size = e.uncompressed_size + length (behind rest);
}

encode_prop-ok :
    (e : Encoder) (value : Str)
    → e.uncompressed_size + length value < 2 ^ 32
    → encode_prop e value
      ≡ ok (record {
        written = e.written ++ value;
        uncompressed_size = e.uncompressed_size + length value;
      })
unfolding encode_prop
encode_prop-ok e value h = ground (arith, h)

encode_rest-ok :
    (rest : List Str) (e : Encoder)
    → e.uncompressed_size + length (behind rest) < 2 ^ 32
    → encode_rest e rest ≡ ok (after_rest e rest)
unfolding encode_rest
encode_rest-ok [] e h = ground (arith, append_nil e.written)
encode_rest-ok (name ∷ rest) e h =
    let sep : Encoder = record {
      written = e.written ++ semicolon ∷ [];
      uncompressed_size = e.uncompressed_size + 1;
    } in
    let next : Encoder = record {
      written = sep.written ++ name;
      uncompressed_size = sep.uncompressed_size + length name;
    } in
    let size = length-append name (behind rest) in
    ground (
      arith,
      h,
      size,
      encode_prop-ok e (semicolon ∷ []) (omega (arith, h)),
      encode_prop-ok sep name (omega (arith, h, size)),
      encode_rest-ok rest next (omega (arith, h, size)),
      append_assoc e.written (semicolon ∷ []) name,
      append_assoc (e.written ++ semicolon ∷ []) name (behind rest),
      append_assoc e.written (semicolon ∷ []) (name ++ behind rest),
    )

encode_rest-err :
    (rest : List Str) (e : Encoder)
    → e.uncompressed_size < 2 ^ 32
    → 2 ^ 32 ≤ e.uncompressed_size + length (behind rest)
    → encode_rest e rest ≡ err invalid
unfolding encode_rest encode_prop
encode_rest-err [] e s h = absurd (omega (arith, s, h))
encode_rest-err (name ∷ rest) e s h =
    let size = length-append name (behind rest) in
    let next : Encoder = record {
      written = (e.written ++ semicolon ∷ []) ++ name;
      uncompressed_size = e.uncompressed_size + 1 + length name;
    } in
    ground (arith, s, h, size, encode_rest-err rest next)

module _ (compress : Str → Str) where
  payload : List Str → Str
  payload names = to_be_bytes (length (joined names)) ++ compress (joined names)

  encode-payload :
      (name : Str) (rest : List Str)
      → length (joined (name ∷ rest)) < 2 ^ 32
      → encode_set_properties compress (name ∷ rest) ≡ ok (payload (name ∷ rest))
  unfolding encode_set_properties payload
  encode-payload name rest h =
      let size = length-append name (behind rest) in
      let first : Encoder = record { written = name; uncompressed_size = length name } in
      ground (
        arith,
        h,
        size,
        encode_prop-ok (record { written = []; uncompressed_size = 0 }) name
            (omega (arith, h, size)),
        encode_rest-ok rest first (omega (arith, h, size)),
      )

  encode-err :
      (name : Str) (rest : List Str)
      → 2 ^ 32 ≤ length (joined (name ∷ rest))
      → encode_set_properties compress (name ∷ rest) ≡ err invalid
  unfolding encode_set_properties encode_prop
  encode-err name rest h =
      let size = length-append name (behind rest) in
      let first : Encoder = record { written = name; uncompressed_size = length name } in
      ground (arith, h, size, encode_rest-err rest first)

  -- Encoding succeeds if the names, with a semicolon between them, are shorter than 2 ^ 32 bytes;
  -- otherwise the error is `Invalid`.
  pub encode-accepts :
      (names : List Str)
      → if ltb (length (joined names)) (2 ^ 32)
        then is_ok (encode_set_properties compress names) ≡ true
        else encode_set_properties compress names ≡ err invalid
  unfolding encode_set_properties
  encode-accepts [] = ground arith
  encode-accepts (name ∷ rest) = elim (dec_lt (length (joined (name ∷ rest))) (2 ^ 32)) [
    | yes h ↦ ground (arith, h, encode-payload name rest h)
    | no h ↦ ground (arith, h, encode-err name rest)
  ]

module _ (compress : Str → Str) (decompress : Str → Option Str) where
  read-joined :
      (debug : Bool) (names : List Str)
      → decompress (compress (joined names)) ≡ some (joined names)
      → All HasNoSemicolon names
      → names ≢ [] ∷ []
      → read_properties decompress debug (length (joined names)) (compress (joined names))
        ≡ some (ok names)
  unfolding read_properties
  read-joined debug [] c n ne = ground (arith, c)
  read-joined debug ([] ∷ []) c n ne = absurd (ne refl)
  read-joined debug ([] ∷ name ∷ rest) c n ne =
      ground (arith, c, split-joined ([] ∷ name ∷ rest) (λ h. cc) n)
  read-joined debug ((b ∷ name) ∷ rest) c n ne =
      ground (arith, c, split-joined ((b ∷ name) ∷ rest) (λ h. cc) n)

  -- Where decompressing undoes compressing, the names have no semicolon, and together with the
  -- semicolons between them they are shorter than 2 ^ 32 bytes, encoding them and extracting the
  -- payload gives the names again, in order; in a debug build too, where nothing panics. The one
  -- exception is the list of a single empty name.
  pub extract-encode :
      (debug : Bool) (names : List Str)
      → ((s : Str) → decompress (compress s) ≡ some s)
      → All HasNoSemicolon names
      → length (joined names) < 2 ^ 32
      → names ≢ [] ∷ []
      → (p : Str) × (encode_set_properties compress names ≡ ok p)
        × (extract_set_properties decompress debug p ≡ some (ok names))
  unfolding encode_set_properties extract_set_properties payload
  extract-encode debug [] c n h ne =
      (0 ∷ 0 ∷ 0 ∷ 0 ∷ compress [], refl, read-joined debug [] (c []) n ne)
  extract-encode debug (name ∷ rest) c n h ne = (
    payload compress (name ∷ rest),
    encode-payload compress name rest h,
    rw (from-to_be_bytes (length (joined (name ∷ rest))) h)
        (read-joined debug (name ∷ rest) (c (joined (name ∷ rest))) n ne),
  )
