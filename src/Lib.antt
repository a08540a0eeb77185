-- ===== src/Lib.antt =====
-- Verification library of the Solana BPF simulator (src/, a Rust library that runs one compiled
-- Solana program against a set of accounts).
--
-- The program has two halves. The instruction executor (src/instruction_executor) keeps one
-- program, one instruction and a fixed number of accounts of fixed sizes in a single aligned
-- buffer, in the layout the program's entry point reads, and runs the virtual machine of
-- solana_rbpf over it; syscalls are what a running program may call. The message executor
-- (src/message_executor) loads accounts and programs for a whole transaction and hands it to the
-- message processor of the Solana runtime.
--
-- Which file models which part:
-- - InstructionExecutor/Types: src/instruction_executor/errors.rs, account_sizes.rs, and the
--   account record and instruction errors of solana_sdk that the executor names.
-- - InstructionExecutor/Context: src/instruction_executor/context.rs (`InvokeContext`).
-- - InstructionExecutor/Buffer: `fill_write`, `write`, `write_all`, `write_account` and
--   `write_empty_account` of src/instruction_executor/mod.rs; Buffer/Writes and Buffer/Slots say
--   what a sequence of them puts into the buffer.
-- - InstructionExecutor/Executor: the struct `InstructionExecutor` and its `new`; Executor/Methods
--   its `update_program`, `update_instruction`, `update_account`, `execute` and `get_return_data`;
--   Executor/GetAccount its `get_account`.
-- - InstructionExecutor/View: the abstract state of an executor, a list of accounts (or empty
--   places), an instruction and a program id, and how it is laid out in bytes;
--   InstructionExecutor/Refinement: the methods above against it, and sequences of them.
-- - InstructionExecutor/History: any sequence of these methods, failing calls and runs that write
--   into the buffer among them, as a relation on executors; `IsShaped` (History/Shape) describes
--   the sizes and places of an executor's parts, and `IsTame` (History/Ends) is what is assumed of
--   the virtual machine.
-- - Memory, InstructionExecutor/Vm: `AlignedMemory` and the virtual machine of solana_rbpf, which
--   are not part of the repository, as parameters; the behaviour of `AlignedMemory` that the
--   theorems use is the record `IsAlignedMemory`, and Memory/Vector has an instance, byte strings.
-- - Syscalls/Types: src/instruction_executor/syscall_errors.rs, and what syscalls use of solana_rbpf and
--   the Solana runtime, as a record of parameters; Syscalls/Host: the memory of the host.
-- - Syscalls/Translate: the `translate_*` functions and `is_nonoverlapping` of
--   src/instruction_executor/syscalls/mod.rs; Syscalls/Program: its `SyscallAbort`, `SyscallPanic`,
--   `SyscallLog` and `SyscallTryFindProgramAddress`; Syscalls/ReturnData: `SyscallSetReturnData` and
--   `SyscallGetReturnData`; Syscalls/Registry: `get_syscalls`.
-- - Syscalls/MemOps: `memmove`, `SyscallMemcpy` and `MemoryChunkIterator` of
--   src/instruction_executor/syscalls/mem_ops.rs; MemOps/Pairs its `memmove_non_contiguous` and
--   `iter_memory_pair_chunks`: Pairs/Sides, Fetch and Pieces are about the two iterators, Bytes and Direction
--   about the bytes that are copied, Loop and Moves about the whole; Syscalls/Sysvar: src/instruction_executor/syscalls/sysvar.rs.
-- - Syscalls/Bounded: the size of the return data, over all the syscalls of the registry.
-- - MessageExecutor/Types, Loader: keys, messages and errors; `AccountLoader` of
--   src/message_executor/loader/mod.rs, over a function of the client that may keep a state.
--   `Answers` is the interface of that function: while its state is good it answers as a map does.
-- - MessageExecutor/Transaction: `load_transaction_accounts` of
--   src/message_executor/loader/transaction_loader.rs, one definition per loop; Transaction/Keys,
--   Owners, Extends, OwnerIndex, Chains and Loads say what each of the loops makes of the accounts.
-- - MessageExecutor/Needed, Programs: src/message_executor/loader/program_loader.rs, the list of
--   needed programs and the loading of those that the cache does not have. Needed/Put, Sorted and
--   Messages are about the list, Programs/Relation and Finds about the accounts of one program,
--   Programs/Replenish about the whole.
-- - MessageExecutor/Runtime, Executor: the cache of programs, the loaders, the feature set and the
--   message processor of the Solana runtime, as the parameter records `Runtime` and `Processor`;
--   the struct `MessageExecutor` of src/message_executor/executor.rs with `new`, `loader`,
--   `record_log` and `process`. Executor/Builtins is about `new`, Executor/Records about `process`.
-- - MessageExecutor/Slots, Features: `WorkingSlot`, `ForkGraph` and `FEATURES` of
--   src/message_executor/mod.rs.
-- - CommandLine: `Simulate::run`, the closure in it, and `GetProgramData::run` of src/main.rs, over
--   the parameter record `Host` (the RPC client, files, decoders); CommandLine/Source is about the
--   closure, CommandLine/Load about the transaction loaded with it, CommandLine/Run about a whole
--   run, and CommandLine/ProgramData about the other command.
-- - Examples: `run_ro` of examples/raw/examples/check.rs, a client of the instruction executor,
--   over the parameter record `Outside`; Examples/Placed and Prepared are about the calls before
--   the run, Examples/RunRo about the whole, Examples/Replaced and Refresh about the same calls on
--   an executor that was used before.
-- - Prelude, Words: shared notation; lists, slices and little-endian numbers; results of fallible
--   calls (`Outcome`) and methods that change an object (`Method`), with what a method promises
--   (`Post`); the arithmetic of u64.
--
-- Conventions: a byte is a number, a key of 32 bytes is one number, a u64 is a number whose
-- operations write their wrap-around or saturation out; a method takes the object and returns it as
-- it was left, also with an error; a panic returns nothing. The pointer of the buffer is taken to
-- be 16-aligned, as `AlignedMemory::<HOST_ALIGN>` gives it. Loops run over a list or count down, as
-- the five rounds of the loop over owners, and are structural recursions. The loop of
-- `iter_memory_pair_chunks` alone takes fuel, a round for each byte and one more, which is enough
-- since each round but the last processes a byte. A hash set is a list of keys in the order in
-- which it is walked.
--
-- Not modelled: parsing of arguments, the choice of the command and logging (src/main.rs); the
-- virtual machine, the ELF loader and the JIT compiler (solana_rbpf), hashing and keys
-- (solana_sdk), the message processor (solana_program_runtime), and printing; of the examples
-- (examples/) all but the one function named above: `run_full` makes the calls of `Simulate::run`,
-- the anchor client those of the raw one with data of a generated crate, and the rest are on-chain
-- programs.
mod Prelude
pub mod Words
pub mod Memory
pub mod InstructionExecutor
pub mod Syscalls
pub mod MessageExecutor
pub mod CommandLine
pub mod Examples
