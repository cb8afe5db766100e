-- ===== src/Tests.antt =====
-- The theorems at concrete inputs, with small interfaces, a transport that counts, and short traces.
mod Data
mod Client
mod Mqtt
mod Parts
mod Stores
mod Runtime
