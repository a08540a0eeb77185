-- ===== src/Syscalls.antt =====
-- src/instruction_executor/syscalls: what a running program may call. A syscall works on the context of
-- the executor and on the memory of the host, through the memory mapping of the virtual machine.
pub mod Host
pub mod Types
pub mod Translate
pub mod Program
pub mod ReturnData
pub mod MemOps
pub mod Sysvar
pub mod Registry
pub mod Bounded
mod Tests
