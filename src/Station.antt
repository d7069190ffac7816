-- ===== src/Station.antt =====
-- The shifts of the kitchen queues (src/kitchen-queue/kitchen-queue-log.service.ts).
pub mod State
pub mod Service
pub mod Phase
mod Changes
mod Simulation
mod Restart
mod Examples
