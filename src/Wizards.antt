-- ===== src/Wizards.antt =====
-- The forms of several steps, Signup.jsx and CareRequestModal.jsx of app/frontend.
pub mod Widgets
pub mod Options
pub mod SignupForm
pub mod Signup
pub mod CareRequest
