-- ===== src/Mqtt/Connection/Progress.antt =====
-- What an attempt to reconnect from the disconnected state needs in order to succeed.
use astarte_device_sdk_rust.Common.{
  ℕ, ◌*◌, min, ◌≡◌, refl, true, Option, none, some, List, [], ◌∷◌, arith, ok, err, nat_eq, str_eq,
  option_eq, int_eq,
}
use astarte_device_sdk_rust.Mqtt.Event.{wait, handle_poll}
use astarte_device_sdk_rust.Mqtt.State.{
  Ctx, Attempt, Options, Wake, joined, polled, stored, ClientAuth,
}
use astarte_device_sdk_rust.Mqtt.Connection.{
  connection, disconnected, finish_reconnect, reconnect, duration_max, connect, create_connection,
  handle_reconnect,
}

-- The task of the handshake ends without an error, before any error or publish of the connection.
abbrev pub Completes : {E I : Type 0} → List (Wake E I) → Type 0
Completes [] = ⊥
Completes (joined (some (ok _)) ∷ rest) = Unit
Completes (joined _ ∷ rest) = ⊥
Completes {E} (polled event ∷ rest) = (handle_poll {E = E} event ≡ ok none) × Completes rest
Completes (stored entries ∷ rest) = Completes rest

-- What the table of the introspection holds when the task ends.
abbrev pub last_stored : {E I : Type 0} → List I → List (Wake E I) → List I
last_stored held [] = held
last_stored held (joined r ∷ rest) = held
last_stored held (polled event ∷ rest) = last_stored held rest
last_stored held (stored entries ∷ rest) = last_stored entries rest

-- The same of a store that may keep no sessions.
abbrev pub session_after : {E I : Type 0} → Option (List I) → List (Wake E I) → Option (List I)
session_after none trace = none
session_after (some held) trace = some (last_stored held trace)

-- The time that the CONNACK may take.
abbrev pub connack_timeout : {C E T : Type 0} → Attempt C E T → ℕ
connack_timeout a = min (2 * a.connection_timeout) duration_max

module _ {C E T I : Type 0} (o : Options C) where
  create_connection-keeps :
      (a : Attempt C E T) (ctx : Ctx I) (auth : ClientAuth)
      → let (r, c', ctx') = create_connection a ctx auth in
        (ctx'.session_synced ≡ ctx.session_synced)
        × (ctx'.paired ≡ ctx.paired)
        × (ctx'.session ≡ ctx.session)
  unfolding create_connection
  create_connection-keeps a ctx auth = ground arith

  -- `connect` touches neither the synchronisation nor the stored introspection.
  connect-keeps :
      (c : Option C) (a : Attempt C E T) (ctx : Ctx I)
      → let (r, c', ctx') = connect o c a ctx in
        (ctx'.session_synced ≡ ctx.session_synced)
        × (ctx'.paired ≡ ctx.paired)
        × (ctx'.session ≡ ctx.session)
  unfolding connect
  connect-keeps c a ctx = ground (arith, create_connection-keeps a ctx)

  handle_reconnect-skips :
      (c : Option C) (a : Attempt C E T) (ctx : Ctx I) (conn : C)
      → a.config ≡ some tt
      → (connect o c a (record ctx { paired = true })).0 ≡ ok conn
      → wait {E = E} (connack_timeout a) a.connack ≡ some (ok true)
      → ctx.session_synced ≡ true
      → (handle_reconnect o c a ctx).0 ≡ some (ok (true, none))
  unfolding handle_reconnect
  handle_reconnect-skips c a ctx conn configured opened acked synced =
      ground (arith, connect-keeps c a (record ctx { paired = true }))

  -- When the broker still has the session and the session is marked as synchronised, which the program
  -- never does before an attempt, an attempt that
  -- got as far as the CONNACK fails with a connection error and stays disconnected: the state machine
  -- has no way from there to the connected state.
  reconnect-synced :
      (c : Option C) (a : Attempt C E T) (trace : List (Wake E I)) (ctx : Ctx I) (conn : C)
      → a.config ≡ some tt
      → (connect o c a (record ctx { paired = true })).0 ≡ ok conn
      → wait {E = E} (connack_timeout a) a.connack ≡ some (ok true)
      → ctx.session_synced ≡ true
      → ((reconnect o (disconnected c) a trace ctx).0 ≡ some (err connection))
        × ((c' : Option C) × ((reconnect o (disconnected c) a trace ctx).1 ≡ disconnected c'))
  unfolding reconnect
  reconnect-synced c a trace ctx conn configured opened acked synced =
      let skipped = handle_reconnect-skips c a ctx conn configured opened acked synced in
      rw (skipped, finish_reconnect) (refl, ((handle_reconnect o c a ctx).1, refl))
