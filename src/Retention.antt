-- ===== src/Retention.antt =====
-- src/retention/mod.rs: the identifiers of retained publishes, and the `Context` that makes them. A
-- `TimestampMillis` is its number of milliseconds, which the caller of `next` passes as read from the
-- clock.
pub mod Ids
pub mod Volatile
pub mod Stored
use astarte_device_sdk_rust.Common.{
  [], ℕ, ◌+◌, ◌%◌, ◌^◌, ◌≡◌, ◌↔◌, Bool, true, ◌&&◌, List, ◌∷◌, arith, eqb, Eq, nat_eq, str_eq,
  option_eq, int_eq,
}

-- `Id`, the identifier of a publish.
pub record PublishId : Type 0 where
  pub timestamp : ℕ
  pub counter : ℕ

abbrev pub id_beq : PublishId → PublishId → Bool
id_beq a b = eqb a.timestamp b.timestamp && eqb a.counter b.counter

pub id_beq_iff : (a b : PublishId) → (id_beq a b ≡ true) ↔ (a ≡ b)
id_beq_iff a b = ground arith

instance abbrev pub id_eq : Eq PublishId
id_eq = record { beq = id_beq; beq_iff = id_beq_iff }

pub data RetentionId : Type 0 where
  volatile stored : PublishId → RetentionId

-- `Context`: the atomic counter.
pub record Context : Type 0 where
  pub counter : ℕ

unfoldable pub new_context : Context
new_context = record { counter = 0 }

-- `next`: `fetch_add` on an `AtomicU32` wraps.
unfoldable pub next : Context → ℕ → PublishId × Context
next ctx now = (
  record { timestamp = now; counter = ctx.counter },
  record { counter = (ctx.counter + 1) % 2 ^ 32 },
)

-- The identifiers of a run of calls, at the given times.
unfoldable pub ids : Context → List ℕ → List PublishId
unfolding next
ids ctx [] = []
ids ctx (now ∷ rest) = let (id, ctx') = next ctx now in id ∷ ids ctx' rest
