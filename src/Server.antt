-- ===== src/Server.antt =====
-- server/server.cpp and server/server.h: the pending terrain requests of the HTTP server, which share
-- one job for equal requests, with the admission of the jobs, their workers, the clients that
-- disconnect, and the destructor.
pub mod State
pub mod Submit
pub mod Waiters
pub mod Work
pub mod Counts
pub mod Sums
pub mod Slots
pub mod Waiting
pub mod Admits
pub mod Invariant
pub mod Stages
pub mod Runs
pub mod Refused
pub mod Attended
pub mod Flights
pub mod FlightRuns
pub mod Moves
pub mod Steps
pub mod Tokens
pub mod Tracks
pub mod Stale
pub mod MapRequests
mod Examples
