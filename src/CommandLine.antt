-- ===== src/CommandLine.antt =====
-- src/main.rs: the commands of the binary, around the message executor. The RPC client, the files and the
-- decoders are parameters.
pub mod Source
pub mod Load
pub mod Run
pub mod ProgramData
mod Tests
use Prim.Native.String.{String}
use solana_bpf_simulator.Prelude.{
  ℕ, Bool, true, false, Option, none, some, List, [], ◌∷◌, map, ◌==◌, if◌then◌else◌,
}
use solana_bpf_simulator.Prelude.Slices.{get_from}
use solana_bpf_simulator.Prelude.Outcome.{Outcome, ok, err, panic, ok_or}
use solana_bpf_simulator.Prelude.Method.{Method, pure, throw, abort, lift, ◌>>=◌, ◌>>◌}
use solana_bpf_simulator.InstructionExecutor.Types.{Account}
use solana_bpf_simulator.InstructionExecutor.Layout.{default_account}
use solana_bpf_simulator.MessageExecutor.Types.{Ids, Message, Error, message}
use solana_bpf_simulator.MessageExecutor.Loader.{AccountLoader}
use solana_bpf_simulator.MessageExecutor.Transaction.{LoadedTransaction, load_transaction_accounts}
use solana_bpf_simulator.MessageExecutor.Slots.{working_slot}
use solana_bpf_simulator.MessageExecutor.Runtime.{
  Runtime, UpgradeableLoaderState, program, program_data, other,
}
use solana_bpf_simulator.MessageExecutor.Needed.{contains}
use solana_bpf_simulator.MessageExecutor.Programs.{replenish_program_cache}
use solana_bpf_simulator.MessageExecutor.Features.{features}
use solana_bpf_simulator.MessageExecutor.Executor
use solana_bpf_simulator.MessageExecutor.Executor.{
  Processor, MessageExecutor, loader, record_log, process,
}

-- `AccountMeta`
pub record AccountMeta : Type 0 where
  pub pubkey : ℕ
  pub is_signer : Bool
  pub is_writable : Bool

-- The arguments of `simulate` and of `get-program-data`. The instruction is a string in base 58.
pub record Simulate : Type 0 where
  pub program_id : ℕ
  pub program : String
  pub instruction : String
  pub account : List ℕ
  pub signer_account : List ℕ
  pub writable_account : List ℕ

pub record GetProgramData : Type 0 where
  pub program_id : ℕ
  pub destination : String

-- What `RpcClient::get_account` returns.
pub data Response : Type 0 where
  held : Account → Response
  refused : Error → Response

-- What is outside of the process, and the decoders.
pub record Host : Type 1 where
  pub World : Type 0
  -- `RpcClient::get_account`: the node may change between two calls.
  pub get_account : ℕ → World → Response × World
  pub read_file : String → World → Outcome Error (List ℕ)
  -- Opens a file to write it, made new or cut to nothing.
  pub create : String → Method World Error (Unit {0})
  -- Appends the bytes to the file; with an error some of them may have been written.
  pub write_all : String → List ℕ → Method World Error (Unit {0})
  pub decode_base58 : String → Outcome Error (List ℕ)
  pub clock_id : ℕ
  -- What `state` returns for an account that holds no state.
  pub invalid_state : Error
  -- The key of one of `FEATURES`.
  pub feature_key : String → ℕ
  -- `Message::new` of one instruction: the program, its data and its accounts.
  pub new_message : ℕ → List ℕ → List AccountMeta → Message

-- `Result::unwrap_or_default`
unfoldable pub unwrap_or_default : Response → Account
unwrap_or_default (held account) = account
unwrap_or_default (refused _) = default_account

-- `HashMap::get` of the accounts seen so far.
unfoldable pub entry : ℕ → List (ℕ × Account) → Option Account
entry key [] = none
entry key ((k, account) ∷ accounts) = if k == key then some account else entry key accounts

-- The metas of the accounts of the instruction.
unfoldable pub account_meta : Simulate → ℕ → AccountMeta
account_meta self a = record {
  pubkey = a;
  is_signer = if contains self.signer_account a then true else false;
  is_writable = if contains self.writable_account a then true else false;
}

unfoldable pub account_metas : Simulate → List AccountMeta
account_metas self = map (account_meta self) self.account

-- The program's account, around the bytes of its file.
unfoldable pub program_account : Ids → List ℕ → Account
program_account ids bytes = record {
  lamports = 1;
  data_bytes = bytes;
  owner = ids.bpf_loader;
  executable = true;
  rent_epoch = 0;
}

module _ (host : Host) where
  -- What the closure given to the loader keeps.
  pub record Seen : Type 0 where
    pub accounts : List (ℕ × Account)
    pub world : host.World

  -- The closure: the program by its key, an account seen before, or what the node answers.
  unfoldable pub answer : ℕ → Account → ℕ → Seen → Option Account × Seen
  answer program_id loaded_program key seen =
      if key == program_id then (some loaded_program, seen) else elim (entry key seen.accounts) [
        | some account ↦ (some account, seen)
        | none ↦
            let (result, world) = host.get_account key seen.world in
            let account = unwrap_or_default result in
            (some account, record { accounts = (key, account) ∷ seen.accounts; world = world })
      ]

-- The end of `Simulate::run`: an error of `process` is logged, and not returned. With it the log.
pub data Report (LogCollector : Type 0) : Type 0 where
  errored : Error → Option LogCollector → Report LogCollector
  logged : Option LogCollector → Report LogCollector

module _ (host : Host) where
  abbrev pub received : Response → Method host.World Error Account
  received (held account) world = ok (account, world)
  received (refused e) world = err (e, world)

  -- `rpc.get_account(key)?`
  unfoldable pub fetch : ℕ → Method host.World Error Account
  fetch key world = let (result, after) = host.get_account key world in received result after

  unfoldable pub read : String → Method host.World Error (List ℕ)
  read path world = lift (host.read_file path world) world

module _ (ids : Ids) (rt : Runtime) (proc : Processor rt) (host : Host) where
  abbrev pub Sbf : Type 0
  Sbf = MessageExecutor ids rt proc

  abbrev pub SbfLoader : Type 0
  SbfLoader = AccountLoader (Seen host) rt.FeatureSet rt.LoadedPrograms

  -- `MessageExecutor::new(FEATURES).unwrap()`
  unfoldable pub new_executor : Method host.World Error Sbf
  new_executor world = elim (Executor.new ids rt proc (map host.feature_key features)) [
    | ok sbf ↦ ok (sbf, world)
    | err _ ↦ panic
    | panic ↦ panic
  ]

  -- The transaction and its programs, with the closure of `Simulate::run`.
  unfoldable pub load :
      ℕ
      → Account
      → ℕ
      → Message
      → Method SbfLoader Error (LoadedTransaction × rt.LoadedProgramsForTxBatch)
  load program_id loaded_program slot msg = do
    loaded_transaction ←
        load_transaction_accounts ids (Seen host) rt.FeatureSet rt.LoadedPrograms
          (answer host program_id loaded_program) msg
    loaded_programs ←
        replenish_program_cache ids rt (Seen host) (answer host program_id loaded_program)
          (working_slot rt.slots_per_epoch slot) (msg ∷ [])
    pure (loaded_transaction, loaded_programs)

  -- What a loader over an executor does to the executor, whose cache it borrows, and to the world.
  unfoldable pub on_loader :
      {A : Type 0} → Method SbfLoader Error A → Sbf → Method host.World Error (A × Sbf)
  on_loader action sbf world =
      elim (action (loader ids rt proc (record { accounts = []; world = world }) sbf)) [
        | ok (a, left) ↦
            ok ((a, record sbf { loaded_programs = left.loaded_programs_cache }), left.source.world)
        | err (e, left) ↦ err (e, left.source.world)
        | panic ↦ panic
      ]

  -- The end of `Simulate::run`, from `record_log` on.
  unfoldable pub report :
      ℕ
      → Message
      → LoadedTransaction
      → rt.LoadedProgramsForTxBatch
      → Sbf
      → Method host.World Error (Report proc.LogCollector)
  report slot msg loaded_transaction loaded_programs sbf world =
      elim (process ids rt proc slot msg loaded_transaction loaded_programs
        (record_log ids rt proc sbf)) [
          | ok (_, left) ↦ ok (logged left.logger, world)
          | err (e, left) ↦ ok (errored e left.logger, world)
          | panic ↦ panic
        ]

  -- `Simulate::run`
  unfoldable pub simulate : Simulate → Method host.World Error (Report proc.LogCollector)
  simulate self = do
    sbf ← new_executor
    clock_account ← fetch host host.clock_id
    clock ← lift (proc.deserialize_clock clock_account.data_bytes)
    bytes ← read host self.program
    ix_data ← lift (host.decode_base58 self.instruction)
    let slot = proc.clock_slot clock
    let msg = host.new_message self.program_id ix_data (account_metas self)
    let ready = record sbf { sysvar_cache = proc.set_clock clock sbf.sysvar_cache }
    ((loaded_transaction, loaded_programs), left) ←
        on_loader (load self.program_id (program_account ids bytes) slot msg) ready
    report slot msg loaded_transaction loaded_programs left

  -- The `match` on the state of a program of the upgradeable loader.
  unfoldable pub programdata_address : UpgradeableLoaderState → Method host.World Error ℕ
  programdata_address (program address) = pure address
  programdata_address (program_data _) = throw (message "Wrong state")
  programdata_address other = throw (message "Wrong state")

  -- `f.write_all(&acc.data()[from..])`
  unfoldable pub write_from : String → Option (List ℕ) → Method host.World Error (Unit {0})
  write_from destination none = abort
  write_from destination (some bytes) = host.write_all destination bytes

  -- The program that an account of the upgradeable loader names.
  unfoldable pub write_upgradeable : String → Account → Method host.World Error (Unit {0})
  write_upgradeable destination acc = do
    state ← lift (ok_or (rt.upgradeable_state acc) host.invalid_state)
    address ← programdata_address state
    programdata ← fetch host address
    write_from destination (get_from rt.size_of_programdata_metadata programdata.data_bytes)

  -- The body of `GetProgramData::run` from the account of the program on.
  unfoldable pub write_program : String → Account → Method host.World Error (Unit {0})
  write_program destination acc =
      if acc.owner == ids.bpf_loader_upgradeable
      then write_upgradeable destination acc
      else if acc.owner == ids.bpf_loader
      then host.write_all destination acc.data_bytes
      else throw (message "Unknown owner for the program")

  -- `GetProgramData::run`
  unfoldable pub get_program_data : GetProgramData → Method host.World Error (Unit {0})
  get_program_data self = do
    host.create self.destination
    acc ← fetch host self.program_id
    write_program self.destination acc
