-- ===== src/Plan.antt =====
-- rtl_designs/plan_to_verilog.py: a plan of the planner as a Verilog module.
pub mod Reading
pub mod Actions
pub mod Templates
pub mod Rendering
