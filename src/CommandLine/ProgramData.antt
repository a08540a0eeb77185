-- ===== src/CommandLine/ProgramData.antt =====
-- src/main.rs: `GetProgramData::run`, and what it leaves in its file.
use Prim.Native.String.{String}
use solana_bpf_simulator.Prelude.{
  ℕ, ◌≡◌, ◌≢◌, refl, sym, ap, ◌∙◌, true, false, Option, none, some, List, ◌==◌, Bool-cases,
  Option-cases, ==_iff, inl, inr,
}
use solana_bpf_simulator.Prelude.Slices.{get_from}
use solana_bpf_simulator.Prelude.Outcome.{Outcome, ok, err, panic}
use solana_bpf_simulator.Prelude.Method.{Method, ◌>>=◌, ◌>>◌}
use solana_bpf_simulator.InstructionExecutor.Types.{Account}
use solana_bpf_simulator.MessageExecutor.Types.{Ids, Error, message}
use solana_bpf_simulator.MessageExecutor.Runtime.{
  Runtime, UpgradeableLoaderState, program, program_data, other,
}
use solana_bpf_simulator.MessageExecutor.Executor.{Processor}
use solana_bpf_simulator.CommandLine.{
  Response, held, refused, Host, GetProgramData, fetch, received, programdata_address, write_from,
  write_upgradeable, write_program, get_program_data,
}

module _ (ids : Ids) (rt : Runtime) (proc : Processor rt) (host : Host) (node : ℕ → Response) where
  -- What there is to write of a program: its bytes, an error, or a panic.
  pub data Extracts (program_id : ℕ) : Outcome Error (List ℕ) → Type 0 where
    unanswered : {e : Error} → node program_id ≡ refused e → Extracts program_id (err e)
    plain :
        {account : Account}
        → node program_id ≡ held account
        → account.owner ≡ ids.bpf_loader
        → account.owner ≢ ids.bpf_loader_upgradeable
        → Extracts program_id (ok account.data_bytes)
    foreign :
        {account : Account}
        → node program_id ≡ held account
        → account.owner ≢ ids.bpf_loader
        → account.owner ≢ ids.bpf_loader_upgradeable
        → Extracts program_id (err (message "Unknown owner for the program"))
    upgradeable :
        {account programdata : Account} {address : ℕ} {bytes : List ℕ}
        → node program_id ≡ held account
        → account.owner ≡ ids.bpf_loader_upgradeable
        → rt.upgradeable_state account ≡ some (program address)
        → node address ≡ held programdata
        → get_from rt.size_of_programdata_metadata programdata.data_bytes ≡ some bytes
        → Extracts program_id (ok bytes)
    short :
        {account programdata : Account} {address : ℕ}
        → node program_id ≡ held account
        → account.owner ≡ ids.bpf_loader_upgradeable
        → rt.upgradeable_state account ≡ some (program address)
        → node address ≡ held programdata
        → get_from rt.size_of_programdata_metadata programdata.data_bytes ≡ none
        → Extracts program_id panic
    no_programdata :
        {account : Account} {address : ℕ} {e : Error}
        → node program_id ≡ held account
        → account.owner ≡ ids.bpf_loader_upgradeable
        → rt.upgradeable_state account ≡ some (program address)
        → node address ≡ refused e
        → Extracts program_id (err e)
    no_program :
        {account : Account} {state : UpgradeableLoaderState}
        → node program_id ≡ held account
        → account.owner ≡ ids.bpf_loader_upgradeable
        → rt.upgradeable_state account ≡ some state
        → ((address : ℕ) → state ≢ program address)
        → Extracts program_id (err (message "Wrong state"))
    no_state :
        {account : Account}
        → node program_id ≡ held account
        → account.owner ≡ ids.bpf_loader_upgradeable
        → rt.upgradeable_state account ≡ none
        → Extracts program_id (err host.invalid_state)

  -- Bytes are written to the file, which may end in an error that leaves some of them there; without bytes
  -- an error comes back with the world as it is.
  unfoldable pub ending : String → Outcome Error (List ℕ) → Method host.World Error (Unit {0})
  ending destination (ok bytes) = host.write_all destination bytes
  ending destination (err e) = λ world. err (e, world)
  ending destination panic = λ world. panic

  Ends : ℕ → String → host.World → Outcome (Error × host.World) (Unit {0} × host.World) → Type 0
  Ends program_id destination world outcome =
      (extract : Outcome Error (List ℕ)) × Extracts program_id extract
      × (outcome ≡ ending destination extract world)

  -- The run, by how the opening of the destination ends.
  unfoldable pub Writes :
      GetProgramData
      → Outcome (Error × host.World) (Unit {0} × host.World)
      → Outcome (Error × host.World) (Unit {0} × host.World)
      → Type 0
  Writes self (ok (_, opened)) outcome =
      (extract : Outcome Error (List ℕ)) × Extracts self.program_id extract
      × (outcome ≡ ending self.destination extract opened)
  Writes self (err x) outcome = outcome ≡ err x
  Writes self panic outcome = outcome ≡ panic

  module _
      (answers : (key : ℕ) (world : host.World)
        → host.get_account key world ≡ (node key, world)) where
    fetch-node :
        (key : ℕ) (world : host.World) (response : Response)
        → node key ≡ response
        → fetch host key world ≡ received host response world
    unfolding fetch
    fetch-node key world response reply =
        ap (λ (answer : Response × host.World). received host answer.0 answer.1) (answers key world)
        ∙ ap (λ r. received host r world) reply

    write_upgradeable_lem :
        (program_id : ℕ) (account : Account) (destination : String) (world : host.World)
        → node program_id ≡ held account
        → account.owner ≡ ids.bpf_loader_upgradeable
        → Ends program_id destination world
            (write_upgradeable ids rt proc host destination account world)
    unfolding Ends ending write_upgradeable programdata_address write_from
    write_upgradeable_lem program_id account destination world there owned =
        go (rt.upgradeable_state account) refl
      where
        named :
            (address : ℕ) (response : Response)
            → rt.upgradeable_state account ≡ some (program address)
            → node address ≡ response
            → Ends program_id destination world
                (write_upgradeable ids rt proc host destination account world)
        named address (refused e) state reply = (
          err e,
          no_programdata there owned state reply,
          rw (state, ◌>>=◌, fetch-node address world (refused e) reply) refl,
        )
        named address (held programdata) state reply =
            elim (Option-cases (get_from rt.size_of_programdata_metadata programdata.data_bytes)) [
              | inl cut ↦ (
                panic,
                short there owned state reply cut,
                rw (state, ◌>>=◌, fetch-node address world (held programdata) reply, cut) refl,
              )
              | inr (bytes, rest) ↦ (
                ok bytes,
                upgradeable there owned state reply rest,
                rw (state, ◌>>=◌, fetch-node address world (held programdata) reply, rest) refl,
              )
            ]

        go :
            (state : Option UpgradeableLoaderState)
            → rt.upgradeable_state account ≡ state
            → Ends program_id destination world
                (write_upgradeable ids rt proc host destination account world)
        go none state = (err host.invalid_state, no_state there owned state, rw state refl)
        go (some (program address)) state = named address (node address) state refl
        go (some (program_data slot)) state = (
          err (message "Wrong state"),
          no_program there owned state (λ address wrong. cc),
          rw state refl,
        )
        go (some other) state = (
          err (message "Wrong state"),
          no_program there owned state (λ address wrong. cc),
          rw state refl,
        )

    write_program_lem :
        (program_id : ℕ) (account : Account) (destination : String) (world : host.World)
        → node program_id ≡ held account
        → Ends program_id destination world
            (write_program ids rt proc host destination account world)
    unfolding Ends ending write_program
    write_program_lem program_id account destination world there =
        elim (Bool-cases (account.owner == ids.bpf_loader_upgradeable)) [
          | inl yes' ↦ rw yes' (
              write_upgradeable_lem program_id account destination world there
                ((==_iff account.owner ids.bpf_loader_upgradeable).0 yes'))
          | inr no' ↦ elim (Bool-cases (account.owner == ids.bpf_loader)) [
            | inl yes' ↦ (
              ok account.data_bytes,
              plain there ((==_iff account.owner ids.bpf_loader).0 yes')
                  (differs account.owner ids.bpf_loader_upgradeable no'),
              rw (no', yes') refl,
            )
            | inr foreign' ↦ (
              err (message "Unknown owner for the program"),
              foreign there (differs account.owner ids.bpf_loader foreign')
                  (differs account.owner ids.bpf_loader_upgradeable no'),
              rw (no', foreign') refl,
            )
          ]
        ]
      where
        differs : (a b : ℕ) → (a == b) ≡ false → a ≢ b
        differs a b no' same = let wrong : true ≡ false = sym ((==_iff a b).1 same) ∙ no' in cc

    opened_lem :
        (self : GetProgramData) (world opened : host.World)
        → host.create self.destination world ≡ ok (tt, opened)
        → (extract : Outcome Error (List ℕ)) × Extracts self.program_id extract
          × (get_program_data ids rt proc host self world ≡ ending self.destination extract opened)
    unfolding Ends ending get_program_data
    opened_lem self world opened opens = go (node self.program_id) refl
      where
        go :
            (response : Response)
            → node self.program_id ≡ response
            → Ends self.program_id self.destination opened
                (get_program_data ids rt proc host self world)
        go (refused e) reply = (
          err e,
          unanswered reply,
          rw (◌>>◌, ◌>>=◌, opens, fetch-node self.program_id opened (refused e) reply) refl,
        )
        go (held account) reply =
            rw (◌>>◌, ◌>>=◌, opens, fetch-node self.program_id opened (held account) reply)
              (write_program_lem self.program_id account self.destination opened reply)

    -- With a node that answers a key in one way and changes nothing else: where the destination
    -- does not open, its error is returned. Where it opens, the bytes that the program's accounts
    -- hold are written by one call, in whose result and whose world the run ends, a failed write
    -- included; or the accounts hold no such bytes, and the run ends in the error that says why
    -- not, with the world as the opening left it, or in the panic of program data that is shorter
    -- than its metadata.
    pub get_program_data_lem :
        (self : GetProgramData) (world : host.World)
        → Writes self
            (host.create self.destination world)
            (get_program_data ids rt proc host self world)
    unfolding Writes get_program_data
    get_program_data_lem self world = go (host.create self.destination world) refl
      where
        go :
            (o : Outcome (Error × host.World) (Unit {0} × host.World))
            → host.create self.destination world ≡ o
            → Writes self o (get_program_data ids rt proc host self world)
        go (ok (u, opened)) opens = opened_lem self world opened opens
        go (err x) fails = rw (get_program_data, ◌>>◌, ◌>>=◌, fails) refl
        go panic fails = rw (get_program_data, ◌>>◌, ◌>>=◌, fails) refl
