-- ===== src/Examples/Tests.antt =====
-- The theorems on `run_ro`, over byte strings: on a machine that runs nothing, and on one that
-- overwrites its input.
use solana_bpf_simulator.Prelude.{
  ℕ, ◌≡◌, refl, true, false, some, List, [], ◌∷◌, ◌++◌, ◌<◌, ◌^◌, map, take, length, replicate,
  length-replicate, arith,
}
use solana_bpf_simulator.Prelude.Outcome.{ok}
use solana_bpf_simulator.Memory.Vector.{Vector, vector_memory, vector_memory-IsAlignedMemory}
use solana_bpf_simulator.InstructionExecutor.Types.{Sdk, Account, vec_sizes}
use solana_bpf_simulator.InstructionExecutor.Buffer.{align_offset}
use solana_bpf_simulator.InstructionExecutor.Vm.{Vm, StableResult}
use solana_bpf_simulator.InstructionExecutor.Executor.{InstructionExecutor}
use solana_bpf_simulator.InstructionExecutor.Executor.Methods.{compile, execute, run}
use solana_bpf_simulator.InstructionExecutor.View.{AreSizes, slots, trailer, buffer_len}
use solana_bpf_simulator.InstructionExecutor.Refinement.New.{new_lem, created, empty_view}
use solana_bpf_simulator.InstructionExecutor.History.{
  Reaches, begins, returns, run_program, perform,
}
use solana_bpf_simulator.InstructionExecutor.History.Shape.{
  IsShaped, IsShaped-buffer, Represents-IsShaped,
}
use solana_bpf_simulator.InstructionExecutor.History.Ends.{IsTame}
use solana_bpf_simulator.Examples.{Outside, prepare}
use solana_bpf_simulator.Examples.Placed.{Given, placed}
use solana_bpf_simulator.Examples.Refresh.{prepare-Reaches}

abbrev tiny_sdk : Sdk
tiny_sdk = record {
  bpf_align_of_u128 = 8;
  max_permitted_data_increase = 2;
  non_dup_marker = 255;
  heap_length = 4;
  success = 0;
}

-- The log is a number.
abbrev still_vm : Vm vector_memory
still_vm = record {
  SysvarCache = Unit {0};
  LogCollector = ℕ;
  Registry = Unit {0};
  BuiltinProgram = Unit {0};
  Executable = List ℕ;
  default_cache = tt;
  stack_size = 4;
  new_loader = λ depth collision registry. tt;
  from_elf = λ elf runtime. ok elf;
  has_jit = true;
  jit_compile = λ executable. ok executable;
  is_compiled = λ executable. true;
  run = λ runtime executable context stack heap input interpreted. some (record {
    result = StableResult.ok 0;
    context = context;
    stack = stack;
    heap = heap;
    input = input;
  });
}

abbrev system_account : Account
system_account = record {
  lamports = 1;
  data_bytes = 115 ∷ 121 ∷ 115 ∷ [];
  owner = 9;
  executable = true;
  rent_epoch = 0;
}

abbrev here : Outside ℕ
here = record {
  get_account = λ key. some system_account;
  read_file = λ path. ok (127 ∷ 69 ∷ []);
  system_program = 0;
  new_log = 5;
}

-- A machine whose programs fill the input with ones.
abbrev scribbling_vm : Vm vector_memory
scribbling_vm = record still_vm {
  run = λ runtime executable context stack heap input interpreted. some (record {
    result = StableResult.ok 0;
    context = context;
    stack = stack;
    heap = heap;
    input = record input { content = replicate (length input.content) 1 };
  });
}

scribbling_vm-IsTame : IsTame scribbling_vm
scribbling_vm-IsTame = record {
  from_elf = λ bytes runtime. cc;
  jit_compile = λ executable. cc;
  run = λ runtime executable context stack heap input interpreted.
      (_, refl, length-replicate {A = ℕ} (length input.content) 1);
}

abbrev State : Type 0
State = InstructionExecutor vector_memory scribbling_vm

abbrev one_given : List Given
one_given = (record { pubkey = 8; is_signer = true; is_writable = false }, system_account) ∷ []

abbrev four_bytes : List ℕ
four_bytes = 1 ∷ 2 ∷ 3 ∷ 4 ∷ []

fits_words : buffer_len tiny_sdk (3 ∷ []) 4 < 2 ^ 64
unfolding align_offset
fits_words = omega arith

one_size-AreSizes : AreSizes (vec_sizes (3 ∷ [])) (3 ∷ [])
one_size-AreSizes = record { count = refl; at = λ i size e. e }

abbrev fresh : State
fresh =
    created vector_memory vector_memory-IsAlignedMemory scribbling_vm tiny_sdk (vec_sizes (3 ∷ []))
      (3 ∷ []) one_size-AreSizes 4 fits_words tt

-- The executor that `new` returns, with a program in it.
abbrev loaded : State
loaded = record fresh { executable = some (127 ∷ []) }

loaded-IsShaped : IsShaped vector_memory scribbling_vm tiny_sdk (3 ∷ []) 4 loaded
loaded-IsShaped =
    IsShaped-buffer vector_memory scribbling_vm tiny_sdk (3 ∷ []) 4 fresh loaded
      (Represents-IsShaped vector_memory scribbling_vm tiny_sdk (3 ∷ []) 4 fresh
        (empty_view vector_memory scribbling_vm tiny_sdk (3 ∷ []) 4)
        ((new_lem vector_memory vector_memory-IsAlignedMemory scribbling_vm tiny_sdk
            (vec_sizes (3 ∷ [])) (3 ∷ []) one_size-AreSizes 4 fits_words (ok tt)).1
          tt).0
        refl)
      refl refl refl refl refl refl

scribbled : (self : State) × (execute vector_memory scribbling_vm tiny_sdk loaded ≡ ok (tt, self))
unfolding execute run
scribbled = (_, refl)

scribbled-Reaches : Reaches vector_memory scribbling_vm tiny_sdk loaded scribbled.0
unfolding perform
scribbled-Reaches = returns run_program begins scribbled.1

prepare-Reaches_example :
    (b : Vector) × (prepare vector_memory scribbling_vm tiny_sdk 6 system_account four_bytes
        one_given scribbled.0
      ≡ ok (
        tt,
        record (scribbled.0) {
          executable = some (115 ∷ 121 ∷ 115 ∷ []);
          context = record (scribbled.0.context) { program_id = 6 };
          buffer = b;
        },
      ))
    × (b.content
        ≡ take 8 (scribbled.0.buffer.content)
          ++ (slots tiny_sdk (3 ∷ []) (map placed one_given)
              ++ trailer tiny_sdk (record {
                entries = map placed one_given;
                instruction = four_bytes;
                program_id = 6;
              })))
unfolding compile
prepare-Reaches_example =
    prepare-Reaches vector_memory vector_memory-IsAlignedMemory scribbling_vm scribbling_vm-IsTame
      tiny_sdk one_given four_bytes 6 system_account (115 ∷ 121 ∷ 115 ∷ []) (115 ∷ 121 ∷ 115 ∷ [])
      loaded-IsShaped scribbled-Reaches refl refl
