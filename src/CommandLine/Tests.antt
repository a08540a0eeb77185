-- ===== src/CommandLine/Tests.antt =====
-- The theorems about the commands at inputs that meet their hypotheses.
use solana_bpf_simulator.Prelude.{
  ℕ, ◌≡◌, refl, map, none, some, List, [], ◌∷◌, ◌++◌, ◌==◌, if◌then◌else◌, arith,
}
use solana_bpf_simulator.Prelude.Outcome.{ok, err}
use solana_bpf_simulator.Prelude.Method.{Method}
use solana_bpf_simulator.InstructionExecutor.Types.{Account}
use solana_bpf_simulator.MessageExecutor.Types.{Error, message}
use solana_bpf_simulator.MessageExecutor.Loader.{Answers}
use solana_bpf_simulator.MessageExecutor.Tests.{
  small_ids, small_runtime, small_processor, small_message, account_of,
}
use solana_bpf_simulator.MessageExecutor.Features.{features}
use solana_bpf_simulator.MessageExecutor.Executor
use solana_bpf_simulator.MessageExecutor.Executor.{activate_all, add_builtin_programs, initial}
use solana_bpf_simulator.CommandLine.{
  Sbf, Simulate, Response, held, refused, Host, Seen, SbfLoader, GetProgramData, answer, entry,
  load, get_program_data,
}
use solana_bpf_simulator.CommandLine.Source.{
  calls, answer_again, IsSteady, answered, IsTrue, answer-Answers,
}
use solana_bpf_simulator.CommandLine.Load.{LoadsAll, load-LoadsAll}
use solana_bpf_simulator.CommandLine.ProgramData.{Writes, get_program_data_lem}

-- A node with a user, a program, its loader and the clock.
abbrev node : ℕ → Response
node key =
    if key == 10
    then held (account_of 0 (1 ∷ []))
    else if key == 11
    then held (account_of 6 (127 ∷ 69 ∷ []))
    else if key == 6
    then held (account_of 1 [])
    else if key == 20
    then held (account_of 2 [])
    else refused (message "AccountNotFound")

abbrev written_first : List ℕ → Method (List ℕ) Error (Unit {0})
written_first [] world = ok (tt, world)
written_first (byte ∷ []) world = ok (tt, world ++ byte ∷ [])
written_first (byte ∷ _) world = err (message "No space left on device", world ++ byte ∷ [])

-- The world is the file that is written. The disk has room for one byte: of a longer file the first byte is
-- there when the write fails.
abbrev small_host : Host
small_host = record {
  World = List ℕ;
  get_account = λ key world. (node key, world);
  read_file = λ path world. ok (127 ∷ 69 ∷ []);
  create = λ path world. ok (tt, []);
  write_all = λ path bytes world. written_first bytes world;
  decode_base58 = λ text. ok [];
  clock_id = 20;
  invalid_state = message "InvalidAccountData";
  feature_key = λ text. 0;
  new_message = λ program_id bytes metas. small_message;
}

steady : IsSteady small_host node
steady key world = refl

abbrev unseen : Seen small_host
unseen = record { accounts = []; world = [] }

unseen-IsTrue : IsTrue small_host node 11 (account_of 6 []) unseen
unfolding IsTrue entry
unseen-IsTrue key account e = absurd (nothing e)
  where
    nothing : {a : Account} → none ≡ some a → ⊥
    nothing e = cc

answer_again_example :
    let first = answer small_host 11 (account_of 6 []) 10 unseen in
    let later = calls small_host 11 (account_of 6 []) (11 ∷ 10 ∷ []) first.1 in
    (account : Account) × (first.0 ≡ some account)
    × (answer small_host 11 (account_of 6 []) 10 later ≡ (some account, later))
answer_again_example = answer_again small_host 11 (account_of 6 []) 10 (11 ∷ 10 ∷ []) unseen

answer-Answers_example :
    Answers
      (answer small_host 11 (account_of 6 []))
      (answered small_host node 11 (account_of 6 []))
      (IsTrue small_host node 11 (account_of 6 []))
answer-Answers_example = answer-Answers small_host node 11 (account_of 6 []) steady

abbrev fresh_loader : SbfLoader small_ids small_runtime small_processor small_host
fresh_loader = record {
  source = unseen;
  feature_set = [];
  loaded_programs_cache = [];
  program_owners = 6 ∷ [];
  builtin_programs = 6 ∷ [];
}

load-LoadsAll_example :
    LoadsAll small_ids small_runtime small_processor small_host node steady 11
      (account_of 6 [])
      5
      small_message
      fresh_loader
      (load small_ids small_runtime small_processor small_host 11
        (account_of 6 [])
        5
        small_message
        fresh_loader)
load-LoadsAll_example =
    load-LoadsAll small_ids small_runtime small_processor small_host node steady 11
      (account_of 6 []) 5 small_message fresh_loader unseen-IsTrue (omega arith, tt) (omega arith)

abbrev of_11 : GetProgramData
of_11 = record { program_id = 11; destination = "program.so" }

get_program_data_lem_example :
    Writes small_ids small_runtime small_processor small_host node of_11
      (small_host.create "program.so" (3 ∷ []))
      (get_program_data small_ids small_runtime small_processor small_host of_11 (3 ∷ []))
get_program_data_lem_example =
    get_program_data_lem small_ids small_runtime small_processor small_host node (λ key world. refl)
      of_11 (3 ∷ [])

abbrev simulate_11 : Simulate
simulate_11 = record {
  program_id = 11;
  program = "program.so";
  instruction = "";
  account = 10 ∷ [];
  signer_account = 10 ∷ [];
  writable_account = [];
}

abbrev small_sbf : Sbf small_ids small_runtime small_processor small_host
small_sbf = add_builtin_programs small_ids small_runtime small_processor small_processor.builtins (
    initial small_ids small_runtime small_processor
      (activate_all small_ids small_runtime small_processor (map small_host.feature_key features)
        [])
      tt)
