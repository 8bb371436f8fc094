-- ===== src/Clients.antt =====
-- Clients of the controls of the crate: programs that call them in any order, with what they were
-- answered before.
pub mod Answers
pub mod Arenas
pub mod Threads
pub mod Queries
pub mod Programs
pub mod Agreement
