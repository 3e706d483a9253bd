-- ===== src/Calendar.antt =====
-- The two calendars of the client, and the dates that they work with.
pub mod Dates
pub mod Texts
pub mod Picker
pub mod Requested
mod Examples
