-- ===== src/MessageExecutor.antt =====
-- src/message_executor: the accounts and programs of a transaction are loaded, and it is handed to the
-- message processor of the Solana runtime.
pub mod Types
pub mod Loader
pub mod Transaction
pub mod Slots
pub mod Runtime
pub mod Needed
pub mod Programs
pub mod Features
pub mod Executor
pub mod Tests
