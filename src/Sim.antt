-- ===== src/Sim.antt =====
-- src/sim with the configuration that it takes, and src/main.cpp.
pub mod Controller
pub mod Events
pub mod Traffic
pub mod System
pub mod Program
