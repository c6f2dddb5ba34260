-- ===== src/Connector.antt =====
-- imessage/imessage/direct/connector.go: the client of one account. Destinations is the choice of
-- the handle and of the devices of a message, Resolve which identifiers have iMessage, Reroute the rerouting of handles, Send the sending of a message over the lookups, and
-- Schedule the times of the registration.
pub mod Destinations
pub mod Reroute
pub mod Resolve
pub mod Schedule
pub mod Send
