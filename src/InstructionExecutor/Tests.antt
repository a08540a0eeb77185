-- ===== src/InstructionExecutor/Tests.antt =====
-- Runs on small inputs, and the theorems at inputs that meet their hypotheses.
use solana_bpf_simulator.Prelude.{
  ℕ, ◌^◌, ◌<◌, ◌≡◌, ◌≢◌, refl, true, false, some, List, [], ◌∷◌, get_elem?, set, arith,
}
use solana_bpf_simulator.Prelude.Outcome.{ok}
use solana_bpf_simulator.Memory.{IsAlignedMemory}
use solana_bpf_simulator.Memory.Vector.{Vector, vector_memory, vector_memory-IsAlignedMemory}
use solana_bpf_simulator.InstructionExecutor.Types.{Sdk, Account, vec_sizes}
use solana_bpf_simulator.InstructionExecutor.Buffer.{align_offset}
use solana_bpf_simulator.InstructionExecutor.Vm.{Vm, StableResult}
use solana_bpf_simulator.InstructionExecutor.Executor.{InstructionExecutor}
use solana_bpf_simulator.InstructionExecutor.Executor.Methods.{
  update_account, update_instruction, update_program, execute, compile,
}
use solana_bpf_simulator.InstructionExecutor.Executor.GetAccount.{get_account}
use solana_bpf_simulator.InstructionExecutor.Executor.Isolation.{execute_isolated}
use solana_bpf_simulator.InstructionExecutor.View.{View, AreSizes, Represents, padded, buffer_len}
use solana_bpf_simulator.InstructionExecutor.Refinement.Update.{new_entry, update_account_lem}
use solana_bpf_simulator.InstructionExecutor.Refinement.Program.{
  update_instruction_lem, update_program_lem,
}
use solana_bpf_simulator.InstructionExecutor.Refinement.New.{new_lem, created, empty_view}
use solana_bpf_simulator.InstructionExecutor.Refinement.RoundTrip.{
  get_account-update_account, update_instruction_stale,
}

-- Short spaces in place of the SDK's, so that buffers stay small.
abbrev small_sdk : Sdk
small_sdk = record {
  bpf_align_of_u128 = 8;
  max_permitted_data_increase = 2;
  non_dup_marker = 255;
  heap_length = 4;
  success = 0;
}

-- A machine that runs nothing and succeeds.
abbrev idle_vm : Vm vector_memory
idle_vm = record {
  SysvarCache = Unit {0};
  LogCollector = Unit {0};
  Registry = Unit {0};
  BuiltinProgram = Unit {0};
  Executable = List ℕ;
  default_cache = tt;
  stack_size = 4;
  new_loader = λ depth collision registry. tt;
  from_elf = λ elf runtime. ok elf;
  has_jit = true;
  jit_compile = λ executable. ok executable;
  is_compiled = λ executable. false;
  run = λ runtime executable context stack heap input interpreted. some (record {
    result = StableResult.ok 0;
    context = context;
    stack = stack;
    heap = heap;
    input = input;
  });
}

abbrev sizes : List ℕ
sizes = 3 ∷ 5 ∷ []

sizes-AreSizes : AreSizes (vec_sizes sizes) sizes
sizes-AreSizes = record { count = refl; at = λ i size e. e }

abbrev State : Type 0
State = InstructionExecutor vector_memory idle_vm

small_enough : buffer_len small_sdk sizes 6 < 2 ^ 64
unfolding align_offset
small_enough = omega arith

abbrev start : State
start =
    created vector_memory vector_memory-IsAlignedMemory idle_vm small_sdk (vec_sizes sizes) sizes
      sizes-AreSizes 6 small_enough tt

abbrev start_view : View
start_view = empty_view vector_memory idle_vm small_sdk sizes 6

start-Represents : Represents vector_memory idle_vm small_sdk sizes start start_view
start-Represents =
    ((new_lem vector_memory vector_memory-IsAlignedMemory idle_vm small_sdk (vec_sizes sizes) sizes
        sizes-AreSizes 6 small_enough (ok tt)).1
      tt).0

abbrev account : Account
account = record {
  lamports = 1000;
  data_bytes = 7 ∷ 9 ∷ [];
  owner = 258;
  executable = false;
  rent_epoch = 2;
}

abbrev M : IsAlignedMemory vector_memory
M = vector_memory-IsAlignedMemory

new_lem_example :
    Represents vector_memory idle_vm small_sdk sizes
      (created vector_memory M idle_vm small_sdk
        (vec_sizes sizes)
        sizes
        sizes-AreSizes
        6
        small_enough
        tt)
      (empty_view vector_memory idle_vm small_sdk sizes 6)
new_lem_example =
    ((new_lem vector_memory M idle_vm small_sdk (vec_sizes sizes) sizes sizes-AreSizes 6
        small_enough (ok tt)).1
      tt).0

update_account_lem_example :
    (b : Vector) × (update_account vector_memory idle_vm small_sdk 1 5 account true false true start
      ≡ ok (tt, record start { buffer = b }))
    × Represents vector_memory idle_vm small_sdk sizes
        (record start { buffer = b })
        (record start_view {
          entries = set start_view.entries 1 (new_entry 5 5 account true false true);
        })
update_account_lem_example =
    update_account_lem vector_memory M idle_vm small_sdk sizes start start_view start-Represents 1 5
      5 account true false true refl (omega arith) (omega arith) (omega arith) (omega arith)

update_instruction_lem_example :
    (b : Vector) × (update_instruction vector_memory idle_vm small_sdk (1 ∷ 2 ∷ []) start
      ≡ ok (tt, record start { buffer = b }))
    × Represents vector_memory idle_vm small_sdk sizes
        (record start { buffer = b })
        (record start_view { instruction = 1 ∷ 2 ∷ 0 ∷ 0 ∷ 0 ∷ 0 ∷ [] })
update_instruction_lem_example =
    update_instruction_lem vector_memory M idle_vm small_sdk sizes start start_view start-Represents
      (1 ∷ 2 ∷ []) (omega arith)

abbrev program : Account
program = record account { data_bytes = 127 ∷ 69 ∷ [] }

abbrev with_program : Vector → State
with_program b = record start {
  executable = some (127 ∷ 69 ∷ []);
  context = record (start.context) { program_id = 77 };
  buffer = b;
}

update_program_lem_example :
    (b : Vector) × (update_program vector_memory idle_vm small_sdk 77 program true start
      ≡ ok (tt, with_program b))
    × Represents vector_memory idle_vm small_sdk sizes
        (with_program b)
        (record start_view { program_id = 77 })
unfolding compile
update_program_lem_example =
    update_program_lem vector_memory M idle_vm small_sdk sizes start start_view start-Represents 77
      program true (127 ∷ 69 ∷ []) (127 ∷ 69 ∷ []) refl refl

one_ne_zero : ◌≢◌ {A = ℕ} 1 0
one_ne_zero e = absurd (omega arith)

get_account-update_account_example :
    (self : State) × (update_account vector_memory idle_vm small_sdk 1 5 account true false true
        start
      ≡ ok (tt, self))
    × (get_account vector_memory idle_vm small_sdk self 1
        ≡ ok (record (padded 5 account) { executable = true }))
    × ((j other : ℕ)
        → get_elem? sizes j ≡ some other
        → 1 ≢ j
        → get_account vector_memory idle_vm small_sdk self j
          ≡ get_account vector_memory idle_vm small_sdk start j)
get_account-update_account_example =
    get_account-update_account vector_memory M idle_vm small_sdk sizes start start_view
      start-Represents 1 5 5 account true false true refl (omega arith) (omega arith) (omega arith)
      (omega arith)

update_instruction_stale_example :
    (once twice : State) × (update_instruction vector_memory idle_vm small_sdk
        (1 ∷ 2 ∷ 3 ∷ [])
        start
      ≡ ok (tt, once))
    × (update_instruction vector_memory idle_vm small_sdk (8 ∷ []) once ≡ ok (tt, twice))
    × Represents vector_memory idle_vm small_sdk sizes twice
        (record start_view { instruction = 8 ∷ 2 ∷ 3 ∷ 0 ∷ 0 ∷ 0 ∷ [] })
update_instruction_stale_example =
    update_instruction_stale vector_memory M idle_vm small_sdk sizes start start_view
      start-Represents (1 ∷ 2 ∷ 3 ∷ []) (8 ∷ []) (omega arith) (omega arith)

execute_isolated_example :
    execute vector_memory idle_vm small_sdk (record (with_program start.buffer) {
      stack = record { content = 1 ∷ 2 ∷ 3 ∷ 4 ∷ []; room = 4 };
      heap = record { content = 5 ∷ 6 ∷ 7 ∷ 8 ∷ []; room = 4 };
      context = record ((with_program start.buffer).context) { return_data = (9, 9 ∷ []) };
    })
    ≡ execute vector_memory idle_vm small_sdk (with_program start.buffer)
execute_isolated_example =
    execute_isolated vector_memory M idle_vm small_sdk (with_program start.buffer)
      (1 ∷ 2 ∷ 3 ∷ 4 ∷ []) (5 ∷ 6 ∷ 7 ∷ 8 ∷ []) (9, 9 ∷ []) (127 ∷ 69 ∷ []) refl refl refl
