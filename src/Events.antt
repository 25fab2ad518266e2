-- ===== src/Events.antt =====
-- internal/events: the envelope, the wire format, and the check of consumed events against the
-- schema registry.
pub mod Framing
pub mod RoundTrip
pub mod Validate
pub mod Registry
pub mod Cached
