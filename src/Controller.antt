-- ===== src/Controller.antt =====
-- internal/controller: the statuses that handlers send (Status), what the controller does with them
-- (Loop), and the end of all controllers (Shutdown).
pub mod Status
pub mod Loop
pub mod Retries
pub mod Shutdown
