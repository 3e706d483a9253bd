-- ===== src/Lib.antt =====
-- A model of the browser client of Roost Assured, a marketplace of chicken keepers and the sitters
-- who look after their flocks: the React application under app/frontend. The Ruby server is not
-- modelled; what it answers is an argument of the handlers.
--
-- The parts and their files.
-- - Common: names passed on, tests on numbers and texts, lists, the `Set` of the source, and `Node`,
--   what a component draws, as a list in document order without styling.
-- - Calendar: dates and their keys YYYY-MM-DD (Calendar/Dates, Calendar/Texts), CalendarPicker.jsx
--   (Calendar/Picker) and RequestedDatesCalendar.jsx (Calendar/Requested), both of
--   app/frontend/components.
-- - Api: app/frontend/lib/api.js. `request` is two halves, `build_request` up to the call of fetch
--   and `settle` from its answer on.
-- - JobRequests: app/frontend/pages/JobRequests.jsx; JobRequests/Board is the page, JobRequests/
--   BidModal the form for a bid, JobRequests/JobCard the card of an accepted job.
-- - Visitors: WaitlistForm.jsx, SittingWindowForm.jsx and ZipSearchForm.jsx of
--   app/frontend/components; Visitors/Waiting the first of them on the page of Home.
-- - SignIn: app/frontend/context/AuthContext.jsx, app/frontend/components/RequireAuth.jsx and
--   app/frontend/pages/Login.jsx.
-- - Admin: app/frontend/pages/admin/AdminLayout.jsx, with the session storage of Api.
-- - Account: app/frontend/pages/Account.jsx; Account/Fields its named values, Account/Sitter its
--   listing and application, Account/Sitter/Parts how they are sent, Account/Events what can happen to
--   it, Account/Render what it draws.
-- - Home: app/frontend/pages/Home.jsx; Home/Records what the server sends, Home/Landing its first
--   section, Home/BidCard the card of a bid, Home/Rating the form to rate a sitter, Home/Render the page,
--   Home/Visits what can happen to it.
-- - Wizards: the forms of several steps, app/frontend/pages/Signup.jsx (Wizards/SignupForm and
--   Wizards/Signup) and app/frontend/components/CareRequestModal.jsx, with Checklist.jsx and Stepper.jsx of
--   app/frontend/components and app/frontend/lib/flockOptions.js.
-- - Paged: app/frontend/hooks/usePaginated.js and app/frontend/components/Pagination.jsx.
-- - Messages: app/frontend/components/MessageThread.jsx.
-- - Blocks: app/frontend/components/BlockReportMenu.jsx.
-- The pages use the calendars, whose lists of dates they keep, and all calls to the server go
-- through Api; a call's outcome comes to a handler as `Settled`.
--
-- How the code is read.
-- - The state of a component is a record with a field for each `useState`. A handler is a function
--   from the state to the new state, with what it hands to its parent or sends to the server. A
--   handler that awaits the server is two functions, `..._start` and `..._finish`, so that other
--   events can come between them; the second takes what the first had closed over, where that
--   matters.
-- - The events of a component are a data type with a step function, or, for the sign-up form, a
--   relation `Move` whose constructors are the moves that the page offers.
-- - A date is a record of year, month and day, as local midnight; `new Date(year, ...)` takes the
--   years 0 to 99 for 1900 to 1999, a text does not; a key is the list of its code units. Texts that
--   are only passed on and tested are native strings. Numbers are ℕ; where the source may go below 0
--   the sign is written out.
-- - Only the loop of `applyRange` runs on fuel: the distance of the two dates with 31 days to each
--   month, which no sequence of days exceeds. `decimal` has fuel for 7 digits, more than years and
--   counts here have.
--
-- Not modelled: fetch, JSON, Base64, the clock and time zones, which are parameters or left out;
-- the browser's own checks of fields, so that the runs here are more than the real ones; styling;
-- maps, payment fields and other third-party widgets; the tables of app/frontend/pages/admin, and of
-- app/frontend/pages the forms for passwords and the pages about sitters and the law.
pub mod Common
pub mod Calendar
pub mod Api
pub mod SignIn
pub mod Visitors
pub mod Account
pub mod Admin
pub mod Home
pub mod JobRequests
pub mod Wizards
pub mod Paged
pub mod Messages
pub mod Blocks
