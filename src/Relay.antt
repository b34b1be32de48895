-- ===== src/Relay.antt =====
-- internal/relay: the piece picker of a swarm joiner.
pub mod TaskSet
pub mod Picker
pub mod Accounting
pub mod Runs
pub mod Progress
pub mod Rarest
pub mod Spool
pub mod SpoolFifo
pub mod SpoolRead
pub mod SpoolLimit
mod Tests
mod PickerTests
