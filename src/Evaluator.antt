-- ===== src/Evaluator.antt =====
-- The digest evaluator, packages/kerdoos/src/kerdoos/core/evaluator.py.
pub mod Executor
pub mod Warnings
pub mod World
pub mod PlanA
pub mod PlanB
pub mod Tick
