-- ===== src/Tools.antt =====
-- app/tools: what the agent can do, and the registry through which it does it.
pub mod World
pub mod Calendar
pub mod Texts
pub mod IsoDate
pub mod IsoDatetime
pub mod CheckAvailability
pub mod BookSlot
pub mod SendConfirmation
pub mod Default
pub mod Registry
mod Tests
