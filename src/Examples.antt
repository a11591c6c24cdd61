-- ===== src/Examples.antt =====
-- The theorems at concrete inputs, and runs of the definitions on them.
pub mod Data
mod Jobs
mod Accounts
mod Links
mod Models
mod Runs
mod Ceilings
mod Analyst
mod Files
mod Sandbox
mod Training
mod Retraining
mod Monitoring
mod Chat
