-- ===== src/Retention/Volatile/Order.antt =====
-- What a push and a removal do to the items that have not expired.
use astarte_device_sdk_rust.Common.{
  ℕ, ◌≡◌, refl, Bool, Option, List, [], ◌∷◌, arith, length, retain, length-retain_le, nat_eq,
  str_eq, option_eq, int_eq,
}
use astarte_device_sdk_rust.Foreign.{Retention}
use astarte_device_sdk_rust.Retention.{PublishId}
use astarte_device_sdk_rust.Retention.Volatile.{State, ItemValue, VolatileItem, is_live}

module _ {ℓ} {A : Type ℓ} (p : A → Bool) where
  retain-length : (l : List A) → length (retain p l) ≡ length l → retain p l ≡ l
  retain-length [] h = refl
  retain-length (x ∷ l) h = ground (arith, retain-length l, length-retain_le p l)

module _ {V : Type 0} (as_expiry : Retention → Option ℕ) (grown : ℕ → ℕ) where
  -- The items that have not expired at the time, oldest first.
  abbrev pub live : ℕ → State V → List (VolatileItem V)
  live now s = retain (is_live as_expiry now) s.store

  abbrev pub fresh_item : PublishId → ItemValue V → Bool → ℕ → VolatileItem V
  fresh_item id value sent stored_at = record {
    id = id;
    store_time = stored_at;
    sent = sent;
    value = value;
  }
