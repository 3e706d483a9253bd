-- ===== src/JobRequests.antt =====
-- The sitter's page, app/frontend/pages/JobRequests.jsx: the records that it works with, the page
-- with its two lists of requests, the form for a bid, and the cards of the jobs accepted.
pub mod Records
pub mod Board
pub mod BidModal
pub mod JobCard
mod Examples
