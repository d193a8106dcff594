-- ===== src/Mux/Examples.antt =====
-- Runs of the multiplexer's model, over decimal weights.
pub mod Fixed
mod Layouts
mod States
