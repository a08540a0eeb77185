-- ===== src/InstructionExecutor/History/Tests.antt =====
-- The theorems on histories at a machine whose programs overwrite the whole input.
use solana_bpf_simulator.Prelude.{
  ℕ, ◌^◌, ◌<◌, ◌≡◌, ◌≢◌, refl, true, false, some, List, [], ◌∷◌, length, get_elem?, replicate,
  length-replicate, arith,
}
use solana_bpf_simulator.Prelude.Outcome.{ok}
use solana_bpf_simulator.Memory.Vector.{vector_memory, vector_memory-IsAlignedMemory}
use solana_bpf_simulator.InstructionExecutor.Types.{Sdk, Account, vec_sizes}
use solana_bpf_simulator.InstructionExecutor.Buffer.{align_offset}
use solana_bpf_simulator.InstructionExecutor.Vm.{Vm, StableResult}
use solana_bpf_simulator.InstructionExecutor.Executor.{InstructionExecutor}
use solana_bpf_simulator.InstructionExecutor.Executor.Methods.{update_account, execute, run}
use solana_bpf_simulator.InstructionExecutor.Executor.GetAccount.{get_account}
use solana_bpf_simulator.InstructionExecutor.View.{AreSizes, padded, buffer_len}
use solana_bpf_simulator.InstructionExecutor.Refinement.New.{new_lem, created, empty_view}
use solana_bpf_simulator.InstructionExecutor.History.{
  Reaches, begins, returns, run_program, new_account, perform,
}
use solana_bpf_simulator.InstructionExecutor.History.Shape.{
  IsShaped, IsShaped-buffer, Represents-IsShaped,
}
use solana_bpf_simulator.InstructionExecutor.History.Ends.{IsTame, Ends}
use solana_bpf_simulator.InstructionExecutor.History.Reach.{Reaches-Ends}
use solana_bpf_simulator.InstructionExecutor.History.Fresh.{slot_bytes, get_account-Reaches}

abbrev tiny_sdk : Sdk
tiny_sdk = record {
  bpf_align_of_u128 = 8;
  max_permitted_data_increase = 2;
  non_dup_marker = 255;
  heap_length = 4;
  success = 0;
}

-- A machine whose programs fill the input with ones.
abbrev scribbling_vm : Vm vector_memory
scribbling_vm = record {
  SysvarCache = Unit {0};
  LogCollector = Unit {0};
  Registry = Unit {0};
  BuiltinProgram = Unit {0};
  Executable = List ℕ;
  default_cache = tt;
  stack_size = 4;
  new_loader = λ depth collision registry. tt;
  from_elf = λ elf runtime. ok elf;
  has_jit = true;
  jit_compile = λ executable. ok executable;
  is_compiled = λ executable. false;
  run = λ runtime executable context stack heap input interpreted. some (record {
    result = StableResult.ok 0;
    context = context;
    stack = stack;
    heap = heap;
    input = record input { content = replicate (length input.content) 1 };
  });
}

scribbling_vm-IsTame : IsTame scribbling_vm
scribbling_vm-IsTame = record {
  from_elf = λ bytes runtime. cc;
  jit_compile = λ executable. cc;
  run = λ runtime executable context stack heap input interpreted.
      (_, refl, length-replicate {A = ℕ} (length input.content) 1);
}

abbrev two_sizes : List ℕ
two_sizes = 3 ∷ 5 ∷ []

two_sizes-AreSizes : AreSizes (vec_sizes two_sizes) two_sizes
two_sizes-AreSizes = record { count = refl; at = λ i size e. e }

fits_words : buffer_len tiny_sdk two_sizes 6 < 2 ^ 64
unfolding align_offset
fits_words = omega arith

abbrev State : Type 0
State = InstructionExecutor vector_memory scribbling_vm

abbrev fresh : State
fresh =
    created vector_memory vector_memory-IsAlignedMemory scribbling_vm tiny_sdk (vec_sizes two_sizes)
      two_sizes two_sizes-AreSizes 6 fits_words tt

-- The executor that `new` returns, with a program in it.
abbrev loaded : State
loaded = record fresh { executable = some (127 ∷ []) }

loaded-IsShaped : IsShaped vector_memory scribbling_vm tiny_sdk two_sizes 6 loaded
loaded-IsShaped =
    IsShaped-buffer vector_memory scribbling_vm tiny_sdk two_sizes 6 fresh loaded
      (Represents-IsShaped vector_memory scribbling_vm tiny_sdk two_sizes 6 fresh
        (empty_view vector_memory scribbling_vm tiny_sdk two_sizes 6)
        ((new_lem vector_memory vector_memory-IsAlignedMemory scribbling_vm tiny_sdk
            (vec_sizes two_sizes) two_sizes two_sizes-AreSizes 6 fits_words (ok tt)).1
          tt).0
        refl)
      refl refl refl refl refl refl

scribbled : (self : State) × (execute vector_memory scribbling_vm tiny_sdk loaded ≡ ok (tt, self))
unfolding execute run
scribbled = (_, refl)

scribbled-Reaches : Reaches vector_memory scribbling_vm tiny_sdk loaded scribbled.0
unfolding perform
scribbled-Reaches = returns run_program begins scribbled.1

abbrev refill : Account
refill = record {
  lamports = 1000;
  data_bytes = 7 ∷ 9 ∷ [];
  owner = 258;
  executable = false;
  rent_epoch = 2;
}

Reaches-Ends_example :
    IsShaped vector_memory scribbling_vm tiny_sdk two_sizes 6 scribbled.0
    × Ends vector_memory scribbling_vm tiny_sdk two_sizes 6
        (new_account 1 5 refill true false true)
        (perform vector_memory scribbling_vm tiny_sdk
          (new_account 1 5 refill true false true)
          scribbled.0)
Reaches-Ends_example =
    Reaches-Ends vector_memory vector_memory-IsAlignedMemory scribbling_vm scribbling_vm-IsTame
      tiny_sdk two_sizes 6 (new_account 1 5 refill true false true) loaded-IsShaped
      scribbled-Reaches

get_account-Reaches_example :
    (next : State) × (update_account vector_memory scribbling_vm tiny_sdk 1 5 refill true false true
        scribbled.0
      ≡ ok (tt, next))
    × (get_account vector_memory scribbling_vm tiny_sdk next 1
        ≡ ok (record (padded 5 refill) { executable = true }))
    × ((j other : ℕ)
        → get_elem? two_sizes j ≡ some other
        → 1 ≢ j
        → slot_bytes vector_memory vector_memory-IsAlignedMemory scribbling_vm tiny_sdk two_sizes
            next j other
          ≡ slot_bytes vector_memory vector_memory-IsAlignedMemory scribbling_vm tiny_sdk two_sizes
              scribbled.0 j other)
get_account-Reaches_example =
    get_account-Reaches vector_memory vector_memory-IsAlignedMemory scribbling_vm
      scribbling_vm-IsTame tiny_sdk two_sizes 6 1 5 5 refill true false true loaded-IsShaped
      scribbled-Reaches refl (omega arith) (omega arith) (omega arith) (omega arith)
