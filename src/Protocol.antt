-- ===== src/Protocol.antt =====
-- internal/protocol: the wire format. Messages has the control messages, Init the opening of a
-- transfer, Entry and Batch the manifest.
pub mod Messages
pub mod Init
pub mod Entry
pub mod RoundTrip
pub mod CountedLists
pub mod EntryRoundTrip
pub mod Handshake
pub mod Ctrl
pub mod Data
pub mod HandshakeLaws
pub mod HandshakeCanonical
pub mod CtrlLaws
pub mod CtrlCanonical
pub mod DataLaws
pub mod Control
mod Tests
mod StreamTests
