-- ===== src/Relay.antt =====
-- registration-relay/internal: the relay between bridges and registration providers.
pub mod Code
pub mod Provider
