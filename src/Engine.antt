-- ===== src/Engine.antt =====
-- internal/engine: a file on its way, from the sender's chunks to the receiver's part file.
pub mod Disk
pub mod RxFile
pub mod Ending
pub mod Limiter
pub mod Opening
pub mod Table
pub mod TableSteps
pub mod Sound
pub mod Absorb
pub mod Verdict
pub mod Closing
pub mod Delivery
pub mod Loops
pub mod Adoption
pub mod Recheck
pub mod Resumption
pub mod TxFile
pub mod Claims
pub mod Answers
pub mod Frames
pub mod Sending
pub mod Journey
pub mod Arrival
pub mod Progress
pub mod Fresh
pub mod Outcome
mod Tests
mod JourneyTests
mod LimiterTests
