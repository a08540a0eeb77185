-- ===== src/InstructionExecutor/View.antt =====
-- What the buffer of an `InstructionExecutor` stands for: a list of accounts with their keys, the
-- instruction and the program id; and when an executor represents such a view.
pub mod Slots
pub mod Serialize
use solana_bpf_simulator.Prelude.{
  ℕ, ◌+◌, ◌-◌, ◌^◌, ◌<◌, ◌≡◌, Bool, false, some, List, [], ◌∷◌, ◌++◌, length, get_elem?, replicate,
}
use solana_bpf_simulator.Prelude.Bytes.{le_bytes, be_bytes}
use solana_bpf_simulator.Words.{u64_mod}
use solana_bpf_simulator.Memory.{AlignedMemory}
use solana_bpf_simulator.InstructionExecutor.Types.{Sdk, AccountSizes, Account}
use solana_bpf_simulator.InstructionExecutor.Layout.{slot, slot_len, default_account}
use solana_bpf_simulator.InstructionExecutor.Vm.{Vm}
use solana_bpf_simulator.InstructionExecutor.Executor.{InstructionExecutor}

pub record Entry : Type 0 where
  pub key : ℕ
  pub account : Account
  pub is_signer : Bool
  pub is_writable : Bool

pub record View : Type 0 where
  pub entries : List Entry
  pub instruction : List ℕ
  pub program_id : ℕ

-- The account fills its space, and its numbers are in the range of their types.
pub record IsEntry (size : ℕ) (x : Entry) : Type 0 where
  pub filled : length x.account.data_bytes ≡ size
  pub owner : x.account.owner < 256 ^ 32
  pub lamports : x.account.lamports < 256 ^ 8
  pub rent_epoch : x.account.rent_epoch < 256 ^ 8

-- The account sizes are those of the list.
pub record AreSizes (a : AccountSizes) (sizes : List ℕ) : Type 0 where
  pub count : a.len ≡ length sizes
  pub at : (i size : ℕ) → get_elem? sizes i ≡ some size → a.size i ≡ some size

-- `data_bytes` with the zeros that fill the space up.
abbrev pub padded : ℕ → Account → Account
padded size a = record a { data_bytes = a.data_bytes ++ replicate (size - length a.data_bytes) 0 }

abbrev pub empty_entry : ℕ → Entry
empty_entry size = record {
  key = 0;
  account = padded size default_account;
  is_signer = false;
  is_writable = false;
}

module _ (sdk : Sdk) where
  abbrev pub entry_slot : ℕ → Entry → List ℕ
  entry_slot size x = slot sdk size x.key x.account x.is_signer x.is_writable x.account.executable

  abbrev pub slots : List ℕ → List Entry → List ℕ
  slots [] xs = []
  slots (size ∷ sizes) [] = []
  slots (size ∷ sizes) (x ∷ xs) = entry_slot size x ++ slots sizes xs

  abbrev pub AreEntries : List ℕ → List Entry → Type 0
  AreEntries [] [] = Unit
  AreEntries [] (x ∷ xs) = ⊥
  AreEntries (size ∷ sizes) [] = ⊥
  AreEntries (size ∷ sizes) (x ∷ xs) = IsEntry size x × AreEntries sizes xs

  abbrev pub slots_len : List ℕ → ℕ
  slots_len [] = 0
  slots_len (size ∷ sizes) = slot_len sdk size + slots_len sizes

  -- The offset of each slot, the first one at `from`.
  abbrev pub offsets : ℕ → List ℕ → List ℕ
  offsets from [] = []
  offsets from (size ∷ sizes) = from ∷ offsets (from + slot_len sdk size) sizes

  -- What follows the slots.
  abbrev pub trailer : View → List ℕ
  trailer v = le_bytes 8 (length v.instruction) ++ (v.instruction ++ be_bytes 32 v.program_id)

  unfoldable pub serialize : List ℕ → View → List ℕ
  serialize sizes v = le_bytes 8 (length sizes) ++ (slots sizes v.entries ++ trailer v)

  abbrev pub buffer_len : List ℕ → ℕ → ℕ
  buffer_len sizes instruction_size = 8 + slots_len sizes + (8 + instruction_size) + 32

module _ (mem : AlignedMemory) (vm : Vm mem) (sdk : Sdk) where
  pub record Represents (sizes : List ℕ) (self : InstructionExecutor mem vm) (v : View)
      : Type 0 where
    pub sized : AreSizes self.account_sizes sizes
    pub entries : AreEntries sdk sizes v.entries
    pub instruction : length v.instruction ≡ self.instruction_size
    pub small : buffer_len sdk sizes self.instruction_size < u64_mod
    pub bytes : mem.as_slice self.buffer ≡ serialize sdk sizes v
    pub offsets : self.account_offsets ≡ offsets sdk 8 sizes
    pub instruction_offset : self.instruction_offset ≡ 8 + slots_len sdk sizes
    pub program_id_offset :
        self.program_id_offset ≡ 8 + slots_len sdk sizes + (8 + self.instruction_size)
