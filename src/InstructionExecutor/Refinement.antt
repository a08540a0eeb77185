-- ===== src/InstructionExecutor/Refinement.antt =====
-- The methods of `InstructionExecutor` on the bytes of the buffer do to the view that the executor
-- represents what they promise.
pub mod Buffer
pub mod Update
pub mod Program
pub mod Read
pub mod Loops
pub mod New
pub mod RoundTrip
