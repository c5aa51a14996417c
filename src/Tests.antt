-- ===== src/Tests.antt =====
-- The theorems at concrete inputs, over the interpretation of Wincode/Slice.antt, and runs of the
-- decoder on the data of the unit tests' kind.
pub mod Data
pub mod Runs
pub mod Decoding
pub mod Parsing
pub mod Sequences
pub mod Deriving
pub mod Refusing
pub mod Expanding
pub mod Compiling
pub mod Messaging
pub mod Unit
pub mod Fixtures
pub mod Adapting
