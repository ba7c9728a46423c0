-- ===== src/Recogniser.antt =====
-- rtl_designs/problem_compiler.py: the states of a sequence recogniser.
pub mod Machine
pub mod Sequence
pub mod Names
pub mod Prefixes
pub mod Detect
