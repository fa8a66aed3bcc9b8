-- ===== src/Handler/Concurrent.antt =====
-- azugo/routes.go: requests that are served at the same time. What they share is the handler's nonce
-- store and its trusted set; a request is a task that accesses them in atomic steps, and a schedule
-- says which task goes next.
pub mod Task
pub mod Requests
pub mod Alone
pub mod Sound
pub mod Outcome
pub mod Answered
pub mod Logins
pub mod Meanwhile
pub mod Credit
pub mod Tally
pub mod Spending
