-- ===== src/Purge.antt =====
-- The payload of the purge of properties, `extract_set_properties` and `encode_set_properties` of
-- src/properties.rs: four bytes of big-endian length, then the names compressed, with ';' between.
-- Two parameters stand for the zlib library: `compress` of all the bytes written to the encoder, and
-- `decompress`, what `read_to_string` gives. Writing to a vector does not fail. `debug` says whether
-- the build checks `debug_assert_eq`; `none` is its panic.
pub mod Roundtrip
use astarte_device_sdk_rust.Common.{
  [], ℕ, ◌+◌, ◌*◌, ◌/◌, ◌%◌, ◌^◌, Bool, not, ◌&&◌, Option, none, some, List, ◌∷◌, ◌++◌, ltb, eqb,
  if◌then◌else◌, length, Result, ok, err, ◌>>=◌, ◌>>◌, ensure, nat_eq, Str, str_eq, option_eq,
  int_eq,
}
use astarte_device_sdk_rust.Mqtt.Error
use astarte_device_sdk_rust.Mqtt.Error.{PurgePropError, invalid, decode}

abbrev pub semicolon : ℕ
semicolon = b';'

-- `u32::to_be_bytes` and `u32::from_be_bytes`.
unfoldable pub to_be_bytes : ℕ → Str
to_be_bytes n = (n / 2 ^ 24) % 256 ∷ (n / 2 ^ 16) % 256 ∷ (n / 2 ^ 8) % 256 ∷ n % 256 ∷ []

unfoldable pub from_be_bytes : ℕ → ℕ → ℕ → ℕ → ℕ
from_be_bytes a b c d = a * 2 ^ 24 + b * 2 ^ 16 + c * 2 ^ 8 + d

abbrev pub cons_head : ℕ → List Str → List Str
cons_head b [] = (b ∷ []) ∷ []
cons_head b (word ∷ rest) = (b ∷ word) ∷ rest

-- `str::split`.
unfoldable pub split : ℕ → Str → List Str
split sep [] = [] ∷ []
split sep (b ∷ bs) = let rest = split sep bs in if eqb b sep then [] ∷ rest else cons_head b rest

-- The encoder: the bytes written to it, and `uncompressed_size`.
pub record Encoder : Type 0 where
  pub written : Str
  pub uncompressed_size : ℕ

-- `u32::try_from` and `checked_add`.
unfoldable pub encode_prop : Encoder → Str → Result PurgePropError Encoder
encode_prop e value = do
  ensure (ltb (length value) (2 ^ 32)) invalid
  ensure (ltb (e.uncompressed_size + length value) (2 ^ 32)) invalid
  ok (record {
    written = e.written ++ value;
    uncompressed_size = e.uncompressed_size + length value;
  })

-- The loop over the properties after the first.
unfoldable pub encode_rest : Encoder → List Str → Result PurgePropError Encoder
unfolding encode_prop
encode_rest e [] = ok e
encode_rest e (prop ∷ rest) = do
  e' ← encode_prop e (semicolon ∷ [])
  e'' ← encode_prop e' prop
  encode_rest e'' rest

module _ (compress : Str → Str) where
  unfoldable pub encode_set_properties : List Str → Result PurgePropError Str
  unfolding encode_prop encode_rest to_be_bytes
  encode_set_properties [] = ok (0 ∷ 0 ∷ 0 ∷ 0 ∷ compress [])
  encode_set_properties (first ∷ rest) = do
    e ← encode_prop (record { written = []; uncompressed_size = 0 }) first
    e' ← encode_rest e rest
    ok (to_be_bytes e'.uncompressed_size ++ compress e'.written)

module _ (decompress : Str → Option Str) where
  -- What follows reading the size: `s.split(';')`, or no property at all.
  unfoldable pub read_properties : Bool → ℕ → Str → Option (Result PurgePropError (List Str))
  unfolding split
  read_properties debug size compressed = elim (decompress compressed) [
    | none ↦ some (err decode)
    | some [] ↦ if debug && not (eqb 0 size) then none else some (ok [])
    | some (b ∷ bs) ↦
        if debug && not (eqb (length (b ∷ bs)) size)
        then none
        else some (ok (split semicolon (b ∷ bs)))
  ]

  unfoldable pub extract_set_properties : Bool → Str → Option (Result PurgePropError (List Str))
  unfolding read_properties from_be_bytes
  extract_set_properties debug (a ∷ b ∷ c ∷ d ∷ compressed) =
      read_properties debug (from_be_bytes a b c d) compressed
  extract_set_properties debug _ = some (err invalid)
