-- ===== src/Ids.antt =====
-- imessage/imessage/direct/ids: the identity service. The user's handles and certificates are in
-- Handles.
pub mod Cache
pub mod Handles
pub mod Lookup
