-- ===== src/InstructionExecutor.antt =====
-- src/instruction_executor/mod.rs: a buffer laid out once for a number of accounts of fixed sizes, an
-- instruction and a program id, whose parts are overwritten before each run.
pub mod Types
pub mod Buffer
pub mod Layout
pub mod Context
pub mod Vm
pub mod Executor
pub mod View
pub mod Refinement
pub mod History
mod Tests
