-- ===== src/CommandLine/Run.antt =====
-- src/main.rs: a whole run of `Simulate::run`.
use solana_bpf_simulator.Prelude.{ℕ, ◌≡◌, List, [], ◌∷◌, ◌⊎◌}
use solana_bpf_simulator.Prelude.Outcome.{Outcome, ok, err}
use solana_bpf_simulator.Prelude.Method.{◌>>=◌}
use solana_bpf_simulator.InstructionExecutor.Types.{Account}
use solana_bpf_simulator.MessageExecutor.Types.{Ids, Message, Error}
use solana_bpf_simulator.MessageExecutor.Transaction.{LoadedTransaction, load_transaction_accounts}
use solana_bpf_simulator.MessageExecutor.Transaction.Loads.{IsLoaded}
use solana_bpf_simulator.MessageExecutor.Slots.{working_slot}
use solana_bpf_simulator.MessageExecutor.Programs.{replenish_program_cache}
use solana_bpf_simulator.MessageExecutor.Programs.Replenish.{IsSupplied}
use solana_bpf_simulator.MessageExecutor.Runtime.{Runtime}
use solana_bpf_simulator.MessageExecutor.Executor
use solana_bpf_simulator.MessageExecutor.Executor.{Processor, loader}
use solana_bpf_simulator.MessageExecutor.Loader
use solana_bpf_simulator.CommandLine.{
  Response, Host, Seen, answer, Sbf, SbfLoader, Simulate, Report, load, on_loader, report,
  program_account, account_metas,
}
use solana_bpf_simulator.CommandLine.Source.{
  IsSteady, answered, answered-some, IsTrue, answer-Answers,
}
use solana_bpf_simulator.CommandLine.Load.{TooDeep}

module _ (ids : Ids) (rt : Runtime) (proc : Processor rt) (host : Host) (node : ℕ → Response)
    (steady : IsSteady host node) (self : Simulate) (bytes ix_data : List ℕ) (clock : proc.Clock)
    (sbf : Sbf ids rt proc host) where
  -- The message of the run, and the executor that it is loaded with.
  abbrev pub sent : Message
  sent = host.new_message self.program_id ix_data (account_metas self)

  abbrev pub ready : Sbf ids rt proc host
  ready = record sbf { sysvar_cache = proc.set_clock clock sbf.sysvar_cache }

  abbrev pub in_place : Account
  in_place = program_account ids bytes

  abbrev pub Result : Type 0
  Result = Outcome (Error × host.World) (Report proc.LogCollector × host.World)

  -- The loader of the run, whose closure has seen nothing yet.
  abbrev pub begun : host.World → SbfLoader ids rt proc host
  begun world = loader ids rt proc (record { accounts = []; world = world }) ready

  -- The message and its programs are loaded, in this order, at the slot of the clock, and the run is what
  -- processing makes of them with the cache as it was left; or a chain of owners is too deep.
  unfoldable pub RunsThrough : host.World → Result → Type 0
  RunsThrough world outcome =
      ((e : Error) × (left : SbfLoader ids rt proc host) × (load ids rt proc host self.program_id
            in_place (proc.clock_slot clock) sent (begun world)
          ≡ err (e, left))
        × TooDeep ids (answered host node self.program_id in_place)
            (answered-some host node self.program_id in_place) sent e
        × (outcome ≡ err (e, left.source.world)))
      ⊎ ((transaction : LoadedTransaction) × (batch : rt.LoadedProgramsForTxBatch) × (middle
            left : SbfLoader ids rt proc host)
          × (load_transaction_accounts ids (Seen host) rt.FeatureSet rt.LoadedPrograms
                (answer host self.program_id in_place) sent (begun world)
              ≡ ok (transaction, middle))
          × (replenish_program_cache ids rt (Seen host) (answer host self.program_id in_place)
                (working_slot rt.slots_per_epoch (proc.clock_slot clock)) (sent ∷ []) middle
              ≡ ok (batch, left))
          × IsLoaded ids (answered host node self.program_id in_place) sent transaction
          × IsSupplied ids rt (Seen host) (answer host self.program_id in_place)
              (answered host node self.program_id in_place)
              (IsTrue host node self.program_id in_place)
              (answer-Answers host node self.program_id in_place steady)
              (working_slot rt.slots_per_epoch (proc.clock_slot clock)) (sent ∷ []) middle batch
              left
          × (outcome
              ≡ report ids rt proc host (proc.clock_slot clock) sent transaction batch
                  (record ready { loaded_programs = left.loaded_programs_cache })
                  left.source.world))

  -- The run from the load on, in a world.
  after_load : host.World → Result
  after_load world =
      (on_loader ids rt proc host
            (load ids rt proc host self.program_id in_place (proc.clock_slot clock) sent) ready
          >>= λ loaded.
              report ids rt proc host (proc.clock_slot clock) sent loaded.0.0 loaded.0.1 loaded.1)
        world
