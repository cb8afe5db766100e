-- ===== src/Lib.antt =====
-- A verification library for astarte-device-sdk-rust, the SDK with which a device talks to Astarte.
--
-- The program. A client validates what it is to send against the device's interfaces, keeps it in a
-- property store or in the retention as the interface asks, and hands it to a transport. The event
-- loop reconnects with a back-off, and after a reconnection a task sends again what was kept. The MQTT
-- transport runs a state machine from disconnected over the handshake to connected.
--
-- The parts, by file:
--   Foreign            what the program uses of the crate astarte_interfaces, as parameters and
--                      enumerations
--   Error              src/error.rs
--   Interfaces         src/interfaces.rs: the collection of the interfaces, and the introspection
--   Object             src/aggregate.rs: `AstarteObject`
--   Packet, Validate   src/validate/mod.rs and src/validate/object.rs: the checks before sending
--   Store              src/store/mod.rs; Store.Memory src/store/memory.rs and Store.Sqlite the folder
--                      src/store/sqlite: the properties; Store.Contract what both promise
--   Retention          src/retention/mod.rs: identifiers, and Retention.Volatile
--                      src/retention/memory.rs: the queue of volatile publishes, and
--                      Retention.Stored the folder src/retention/sqlite: the stored ones
--   Transport          src/transport/mod.rs: the traits `Publish` and `Register`; of
--                      src/retention/mod.rs the trait `StoredRetention`; of src/state.rs the status
--                      of the connection
--   Client             src/client/mod.rs: sending datastreams, and Client.Property
--                      src/client/property.rs: setting and unsetting properties;
--                      Client.Introspection src/client/introspection.rs: changing the interfaces
--   Connection         Connection.Resend src/connection/resend.rs: the task that sends again;
--                      Connection.Incoming src/connection/incoming.rs: the received events;
--                      Connection.EventLoop src/connection/mod.rs and the reconnection of resend.rs
--   Purge              src/properties.rs: the payload of the purge of properties
--   Mqtt               src/transport/mqtt/components.rs; Mqtt.Error error.rs and Mqtt.Topic topic.rs
--                      there; Mqtt.Event, Mqtt.State and Mqtt.Connection the folder connection;
--                      Mqtt.Handshake what the handshake asks of the broker, and Mqtt.Client the
--                      `Publish` of src/transport/mqtt/mod.rs; Mqtt.Client.Ready what it promises to
--                      the client and to the resend task
--   Retry              src/retry.rs: the back-off
--   Common             lists, results, maps and strings; Tests: the theorems at concrete inputs
--
-- How the code is modelled. Functions keep the names of the source, and its order of checks and
-- effects. A method that changes its receiver takes the state and gives the new one back. A lock that
-- a method holds throughout makes it one step. The client and its sender share the volatile store and
-- the retention: what a sender may change of them is passed to it and given back (`Shared`). Strings are their bytes, a `HashMap` is an association
-- list, durations and instants are natural numbers of nanoseconds, and what is read from a clock or a
-- random generator is an argument. Machine integers wrap or saturate where the source says so.
--
-- Bounds and fuel. The merge of an object's fields with the mappings of its interface gets one more
-- round than there are fields and mappings, which is enough since each round takes one of them. The
-- loop of the resend task has fuel, and ends within one round more than what waits to be sent. The
-- loop of the reconnection has as fuel a number of attempts, and ends if the transport connects or
-- fails within that many; the event loop itself has no end of its own, so its fuel is arbitrary. The
-- loops of the MQTT connection run over a trace of what the MQTT library and the handshake's task
-- give, with that task's writes of the stored introspection; the result `none` is a trace that ends while the code waits.
--
-- SQL. A table is a list of rows, and a query of the folder queries is what it says on that list. Of
-- the rules of the database, the keys, the foreign key and the deletion of what refers to a deleted
-- row are modelled; that a statement fails for another reason is not.
--
-- Not modelled: opening and pooling databases, and the session; the gRPC transport; pairing and TLS;
-- encoding of payloads; logging; the crates for errors, derive macros, mocks and tests, and the
-- examples. Of the event loop the steps of the resend task meanwhile, of src/transport/mqtt/mod.rs the
-- `Register` of the client and the acknowledgements,
-- and of src/properties.rs the access to properties are not there. The values that are sent are a type
-- parameter.
pub mod Common
pub mod Foreign
pub mod Retry
pub mod Object
pub mod Packet
pub mod Store
pub mod Error
pub mod Interfaces
pub mod Validate
pub mod Mqtt
pub mod Retention
pub mod Transport
pub mod Client
pub mod Connection
pub mod Purge
mod Tests
