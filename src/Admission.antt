-- ===== src/Admission.antt =====
-- server/terrain_admission.h and server/terrain_byte_admission.h: nonblocking admission counters.
-- Each access of the atomic is one step of a thread, with the local computation that follows it.
-- An `int` is an integer (the counter stays between 0 and its maximum, so it cannot overflow), a
-- `std::uint64_t` a number below 2 ^ 64.
pub mod Jobs
pub mod Bytes
mod Examples
