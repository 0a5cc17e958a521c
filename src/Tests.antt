-- ===== src/Tests.antt =====
-- Runs of the modelled code on concrete values, and instances of the theorems.
mod Data
mod Network
mod Protocol
mod RingBuffer
mod Storage
mod Common
mod Topics
mod Limits
mod Config
mod Broker
mod Server
