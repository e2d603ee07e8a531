-- ===== src/Scenarios.antt =====
-- The theorems at concrete inputs.
pub mod Logs
pub mod States
pub mod Fleets
pub mod Seams
pub mod Requests
pub mod Edits
pub mod Troubles
pub mod Verbs
pub mod Parks
pub mod Rounds
pub mod Climbs
pub mod Calls
pub mod Lands
pub mod Trails
