-- ===== src/Chat.antt =====
-- A question to the analyst, backend/routes/chat.py.
pub mod Turns
pub mod Handler
pub mod Guards
pub mod Outcomes
pub mod History
