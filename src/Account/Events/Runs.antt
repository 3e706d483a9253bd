-- ===== src/Account/Events/Runs.antt =====
-- Every run of events on the page of app/frontend/pages/Account.jsx.
use roost_assured.Common.{List, number_key, string_key}
