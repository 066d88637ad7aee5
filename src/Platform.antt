-- ===== src/Platform.antt =====
-- What the code relies on outside the repository: Qt's strings, and floating-point arithmetic.
pub mod Strings
pub mod Storage
pub mod Sampling
pub mod Floats
pub mod Doubles
pub mod Instances
