-- ===== src/Retention/Stored/Delivery.antt =====
-- What the stored retention of src/retention/sqlite gives back of a publish that was stored.
use astarte_device_sdk_rust.Common.{
  ℕ, zero, suc, ◌+◌, ◌-◌, ◌*◌, ◌/◌, ◌%◌, ◌^◌, ◌≤◌, ◌<◌, min, ◌≡◌, refl, ap, ◌↔◌, inl, inr, Bool,
  true, false, not, Option, none, some, List, [], ◌∷◌, arith, Option-cases, any, length, take, drop,
  retain, count, length-retain_le, filter_map, ok, nat_eq, str_beq_iff, str_eq, option_beq_iff,
  option_eq, int_beq_iff, int_eq,
}
use astarte_device_sdk_rust.Common.Map.{lookup}
use astarte_device_sdk_rust.Foreign.{reliability_beq_iff}
use astarte_device_sdk_rust.Retention.{PublishId, id_beq, id_beq_iff, id_eq}
use astarte_device_sdk_rust.Retention.Stored.{
  from_id, expiry_to_sql, from_info, expiry_from_sql, RetentionMapping, RetentionPublish,
  PublishInfo, Database, is_publish_of, is_expired, same_mapping, cap_limit,
}
use astarte_device_sdk_rust.Retention.Stored.Tables.{
  insert_row, store_mapping, delete_expired, remove_oldest, free_retention_items, to_info,
  join_mapping, is_unsent,
}

pub same_mapping_iff : (a b : RetentionMapping) → (same_mapping a b ≡ true) ↔ (a ≡ b)
unfolding same_mapping
same_mapping_iff a b = ground (
  arith,
  str_beq_iff a.interface b.interface,
  str_beq_iff a.path b.path,
  int_beq_iff a.version_major b.version_major,
  reliability_beq_iff a.reliability b.reliability,
  option_beq_iff a.expiry b.expiry,
)

abbrev pub has_id : PublishId → List RetentionPublish → Bool
has_id id l = any (λ q. id_beq q.id id) l

has_id-retain :
    (id : PublishId) (f : RetentionPublish → Bool) (l : List RetentionPublish)
    → has_id id l ≡ false
    → has_id id (retain f l) ≡ false
has_id-retain id f [] h = h
has_id-retain id f (p ∷ l) h = ground (arith, h, has_id-retain id f l)

has_id-drop :
    (id : PublishId) (n : ℕ) (l : List RetentionPublish)
    → has_id id l ≡ false
    → has_id id (drop n l) ≡ false
has_id-drop id zero l h = h
has_id-drop id (suc n) [] h = h
has_id-drop id (suc n) (p ∷ l) h = has_id-drop id n l (ground (arith, h))

pub has_id-free :
    (db : Database) (id : PublishId) (n now : ℕ)
    → has_id id db.publishes ≡ false
    → has_id id (free_retention_items db n now).1.publishes ≡ false
unfolding free_retention_items delete_expired remove_oldest
has_id-free db id n now h =
    let kept = retain (λ p. not (is_expired now p)) db.publishes in
    let k = has_id-retain id (λ p. not (is_expired now p)) db.publishes h in
    let stored = min (length db.publishes + n) (2 ^ 64 - 1) in
    ground (
      arith,
      h,
      k,
      has_id-drop id
          (cap_limit (stored - count (is_expired now) db.publishes - db.retention_capacity)) kept k,
    )

pub has_id-store_mapping :
    (db : Database) (id : PublishId) (m : RetentionMapping)
    → has_id id db.publishes ≡ false
    → has_id id (store_mapping db m).publishes ≡ false
unfolding store_mapping
has_id-store_mapping db id m h =
    ground
      (arith, h, has_id-retain id (λ p. not (is_publish_of m.interface m.path p)) db.publishes h)

-- The query's rows before its limit.
abbrev pub unsent_rows : Database → ℕ → List RetentionPublish → List (PublishId × PublishInfo)
unsent_rows db now l =
    filter_map (join_mapping db) (retain (is_unsent now) (retain (λ p. not (is_expired now p)) l))

join_mapping-id :
    (db : Database) (p : RetentionPublish) (x : PublishId × PublishInfo)
    → join_mapping db p ≡ some x
    → x.0 ≡ p.id
unfolding join_mapping to_info
join_mapping-id db p x h = ground (arith, h)

pub lookup-unsent_rows :
    (db : Database) (now : ℕ) (p : RetentionPublish) (info : PublishInfo)
    (l : List RetentionPublish)
    → join_mapping db p ≡ some (p.id, info)
    → p.sent ≡ false
    → is_expired now p ≡ false
    → has_id p.id l ≡ false
    → lookup p.id (unsent_rows db now (insert_row p l)) ≡ some info
unfolding insert_row lookup
lookup-unsent_rows db now p info [] j s x h = ground (arith, j, s, x, id_beq_iff p.id p.id)
lookup-unsent_rows db now p info (q ∷ l) j s x h = elim (Option-cases (join_mapping db q)) [
  | inl n ↦
      ground (arith, j, s, x, h, n, id_beq_iff p.id p.id, lookup-unsent_rows db now p info l j s x)
  | inr (r, e) ↦ ground (
    arith,
    j,
    s,
    x,
    h,
    e,
    join_mapping-id db q r e,
    id_beq_iff p.id p.id,
    lookup-unsent_rows db now p info l j s x,
  )
]

length-filter_map_le :
    {A B : Type 0} (f : A → Option B) (l : List A) → length (filter_map f l) ≤ length l
length-filter_map_le f [] = omega arith
length-filter_map_le f (x ∷ l) = elim (Option-cases (f x)) [
  | inl n ↦ ground (arith, n, length-filter_map_le f l)
  | inr (y, e) ↦ ground (arith, e, length-filter_map_le f l)
]

pub take-all : {A : Type 0} (n : ℕ) (l : List A) → length l ≤ n → take n l ≡ l
take-all zero [] h = refl
take-all zero (x ∷ l) h = absurd (omega (arith, h))
take-all (suc n) [] h = refl
take-all (suc n) (x ∷ l) h = ap (◌∷◌ x) (take-all n l (omega (arith, h)))

pub length-unsent_rows :
    (db : Database) (now : ℕ) (l : List RetentionPublish) → length (unsent_rows db now l) ≤ length l
length-unsent_rows db now l =
    let live = retain (λ p. not (is_expired now p)) l in
    omega (
      arith,
      length-filter_map_le (join_mapping db) (retain (is_unsent now) live),
      length-retain_le (is_unsent now) live,
      length-retain_le (λ p. not (is_expired now p)) l,
    )

-- The expiry is whole seconds that an `i64` holds, the identifier's milliseconds are a `u64`.
abbrev pub IsStorable : PublishId → Option ℕ → Type 0
IsStorable id none = Unit
IsStorable id (some expiry) =
    (id.timestamp < 2 ^ 64) × (expiry % 10 ^ 9 ≡ 0) × (expiry / 10 ^ 9 < 2 ^ 63)

-- The time, in seconds, is not after the end of the expiry.
abbrev pub IsLiveAt : ℕ → PublishId → Option ℕ → Type 0
IsLiveAt now id none = Unit
IsLiveAt now id (some expiry) = (now < 2 ^ 64) × (now ≤ (id.timestamp * 10 ^ 6 + expiry) / 10 ^ 9)

pub expiry_from-to_sql :
    (id : PublishId) (e : Option ℕ) → IsStorable id e → expiry_from_sql (expiry_to_sql e) ≡ e
unfolding expiry_from_sql expiry_to_sql
expiry_from-to_sql id none h = refl
expiry_from-to_sql id (some e) h = ground (arith, h)

-- A row of the publish that `from_info` makes.
abbrev pub IsRowOf : PublishId → PublishInfo → ℕ → RetentionPublish → Type 0
IsRowOf id info now p =
    (from_info id info ≡ ok p)
    × (p.id ≡ id)
    × (p.interface ≡ info.interface)
    × (p.path ≡ info.path)
    × (p.sent ≡ info.sent)
    × (p.payload ≡ info.value)
    × (is_expired now p ≡ false)

expiry_row : PublishId → PublishInfo → Option ℕ → RetentionPublish
expiry_row id info e = record {
  id = id;
  interface = info.interface;
  path = info.path;
  expiry_time = e;
  sent = info.sent;
  payload = info.value;
}

pub from_info-row :
    (id : PublishId) (info : PublishInfo) (now : ℕ)
    → IsStorable id info.expiry
    → IsLiveAt now id info.expiry
    → (p : RetentionPublish) × IsRowOf id info now p
unfolding from_info from_id expiry_row
from_info-row id info now s l = go info.expiry refl s l
  where
    go :
        (e : Option ℕ)
        → info.expiry ≡ e
        → IsStorable id e
        → IsLiveAt now id e
        → (p : RetentionPublish) × IsRowOf id info now p
    go none q s l = (expiry_row id info none, ground (arith, q))
    go (some e) q s l = (
      expiry_row id info (some (min (id.timestamp * 10 ^ 6 + e) (2 ^ 64 * 10 ^ 9 - 1) / 10 ^ 9)),
      ground (arith, q, s, l),
    )
