-- ===== src/Apns.antt =====
-- imessage/imessage/direct/apns: the wire format of APNs commands (binary.go, in Payload) and the
-- mapping between command structs and payloads (commands.go and marshal.go, in Marshal), and what the connection does with them (Connection).
pub mod Word
pub mod Command
pub mod Connection
pub mod Marshal
pub mod Payload
pub mod Reader
