-- ===== src/Tests.antt =====
-- Runs of the models at concrete inputs, and the theorems at them.
mod Loops
mod Requests
mod Tunnels
mod Resolutions
mod Clients
mod Schedules
mod Parsers
mod TimeOuts
mod Starts
mod Rounds
mod Functions
mod Accepts
mod Lives
