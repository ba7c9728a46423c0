-- ===== src/Problem.antt =====
-- rtl_designs/problem_compiler.py: a problem file as text, as an s-expression, and as a record.
pub mod Sexpr
pub mod Reading
pub mod Emitting
