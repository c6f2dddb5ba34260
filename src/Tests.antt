-- ===== src/Tests.antt =====
-- The theorems of the development at concrete inputs.
mod Connections
mod Frames
mod Lookups
mod Acks
mod Handles
mod Requests
mod Sending
mod Incoming
mod Resolving
mod Archives
