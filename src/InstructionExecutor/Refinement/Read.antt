-- ===== src/InstructionExecutor/Refinement/Read.antt =====
-- `get_account` reads back what the view says of an account.
use solana_bpf_simulator.Prelude.{
  ℕ, ◌+◌, ◌%◌, ◌<◌, ◌≡◌, refl, sym, ap, subst, some_inj, ◌∙◌, Bool, true, false, some, List, [],
  ◌∷◌, ◌++◌, append_assoc, length, get_elem?, replicate, ◌==◌, arith, lengths,
}
use solana_bpf_simulator.Prelude.Bytes.{
  le_bytes, be_bytes, from_le_bytes-le_bytes, from_be_bytes-be_bytes,
}
use solana_bpf_simulator.Prelude.Slices.{range, range_middle, get_elem?_middle}
use solana_bpf_simulator.Prelude.Outcome.{ok}
use solana_bpf_simulator.Words.{u64_mod, add64}
use solana_bpf_simulator.Memory.{AlignedMemory}
use solana_bpf_simulator.InstructionExecutor.Types.{Sdk, Account}
use solana_bpf_simulator.InstructionExecutor.Layout.{slot, slot_len, spare}
use solana_bpf_simulator.InstructionExecutor.Buffer.{bool_to_u8, align_offset}
use solana_bpf_simulator.InstructionExecutor.Buffer.Slots.{
  upto_writable, upto_key, upto_owner, upto_lamports, upto_size, upto_spare, num,
}
use solana_bpf_simulator.InstructionExecutor.Vm.{Vm}
use solana_bpf_simulator.InstructionExecutor.Executor.{InstructionExecutor}
use solana_bpf_simulator.InstructionExecutor.Executor.GetAccount.{read_account, get_account}
use solana_bpf_simulator.InstructionExecutor.View.{
  Entry, View, IsEntry, Represents, entry_slot, serialize, trailer,
}
use solana_bpf_simulator.InstructionExecutor.View.Slots.{
  before, after, offset_at, entry_at, before_bound,
}
use solana_bpf_simulator.InstructionExecutor.View.Serialize.{serialize_split}

flag_of : (b : Bool) → ((bool_to_u8 b % 256) == 1) ≡ b
flag_of true = refl
flag_of false = refl

module _ (sdk : Sdk) (size : ℕ) (x : Entry) (hx : IsEntry size x) (front behind : List ℕ)
    (small : length front + slot_len sdk size < u64_mod) where
  abbrev bytes : List ℕ
  bytes = front ++ (entry_slot sdk size x ++ behind)

  -- What follows each of the fields.
  abbrev from_spare : List ℕ
  from_spare =
      replicate (num sdk size x.key x.account x.is_signer x.is_writable x.account.executable) 0
      ++ (le_bytes 8 x.account.rent_epoch ++ behind)

  abbrev from_size : List ℕ
  from_size = le_bytes 8 size ++ (x.account.data_bytes ++ from_spare)

  abbrev from_owner : List ℕ
  from_owner = be_bytes 32 x.account.owner ++ (le_bytes 8 x.account.lamports ++ from_size)

  -- The bytes written up to some field of the slot.
  abbrev upto : (Sdk → ℕ → ℕ → Account → Bool → Bool → Bool → List ℕ) → List ℕ
  upto f = front ++ f sdk size x.key x.account x.is_signer x.is_writable x.account.executable

  bytes_owner : bytes ≡ upto upto_key ++ from_owner
  unfolding slot
  bytes_owner = simp append_assoc

  bytes_flag :
      bytes
      ≡ upto upto_writable
        ++ (bool_to_u8 x.account.executable % 256
            ∷ ((0 ∷ 0 ∷ 0 ∷ 0 ∷ []) ++ (be_bytes 32 x.key ++ from_owner)))
  unfolding slot le_bytes
  bytes_flag = simp append_assoc

  flag_read :
      (from : ℕ)
      → from ≡ length front + 3
      → get_elem? bytes from ≡ some (bool_to_u8 x.account.executable % 256)
  flag_read from e =
      ap (λ l. get_elem? l from) bytes_flag
      ∙ get_elem?_middle from (upto upto_writable) _ _ (omega lengths)

  owner_read :
      (from to : ℕ)
      → from ≡ length front + 40
      → to ≡ from + 32
      → range from to bytes ≡ some (be_bytes 32 x.account.owner)
  owner_read from to e f =
      ap (range from to) bytes_owner
      ∙ range_middle from to (upto upto_key) (be_bytes 32 x.account.owner) _ (omega lengths)
          (omega lengths)

  lamports_read :
      (from to : ℕ)
      → from ≡ length front + 72
      → to ≡ from + 8
      → range from to bytes ≡ some (le_bytes 8 x.account.lamports)
  unfolding slot
  lamports_read from to e f =
      ap (range from to) {y = upto upto_owner ++ (le_bytes 8 x.account.lamports ++ from_size)}
        (simp append_assoc)
      ∙ range_middle from to (upto upto_owner) (le_bytes 8 x.account.lamports) _ (omega lengths)
          (omega lengths)

  size_read :
      (from to : ℕ)
      → from ≡ length front + 80
      → to ≡ from + 8
      → range from to bytes ≡ some (le_bytes 8 size)
  unfolding slot
  size_read from to e f =
      ap (range from to) {y = upto upto_lamports ++ from_size} (simp append_assoc)
      ∙ range_middle from to (upto upto_lamports) (le_bytes 8 size) _ (omega lengths)
          (omega lengths)

  data_read :
      (from to : ℕ)
      → from ≡ length front + 88
      → to ≡ from + size
      → range from to bytes ≡ some x.account.data_bytes
  unfolding slot
  data_read from to e f =
      ap (range from to) {y = upto upto_size ++ (x.account.data_bytes ++ from_spare)}
        (simp append_assoc)
      ∙ range_middle from to (upto upto_size) x.account.data_bytes _ (omega lengths)
          (omega (lengths, hx.filled))

  rent_epoch_read :
      (from to : ℕ)
      → from ≡ length front + 88 + size + spare sdk size
      → to ≡ from + 8
      → range from to bytes ≡ some (le_bytes 8 x.account.rent_epoch)
  unfolding slot
  rent_epoch_read from to e f =
      ap (range from to) {y = upto upto_spare ++ (le_bytes 8 x.account.rent_epoch ++ behind)}
        (simp append_assoc)
      ∙ range_middle from to (upto upto_spare) (le_bytes 8 x.account.rent_epoch) behind
          (omega (lengths, hx.filled)) (omega lengths)

  -- The offsets that `read_account` computes.
  abbrev at_owner : ℕ → ℕ
  at_owner start = add64 (add64 start 3) 37

  abbrev at_lamports : ℕ → ℕ
  at_lamports start = add64 (at_owner start) 32

  abbrev at_size : ℕ → ℕ
  at_size start = add64 (at_lamports start) 8

  abbrev at_data : ℕ → ℕ
  at_data start = add64 (at_size start) 8

  abbrev at_rent_epoch : ℕ → ℕ
  at_rent_epoch start =
      add64 (add64 (at_data start) size)
        (add64 (align_offset size sdk.bpf_align_of_u128) sdk.max_permitted_data_increase)

  -- Whatever stands around it, a slot reads as its account.
  pub read_account-slot :
      (start : ℕ) → start ≡ length front → read_account sdk bytes start ≡ ok x.account
  unfolding read_account
  read_account-slot start e =
      rw
        (
          flag_read (add64 start 3) (omega arith),
          owner_read (at_owner start) (at_lamports start) (omega arith) (omega arith),
          lamports_read (at_lamports start) (at_size start) (omega arith) (omega arith),
          size_read (at_size start) (at_data start) (omega arith) (omega arith),
          from_le_bytes-le_bytes 8 size (omega arith),
          data_read (at_data start) (add64 (at_data start) size) (omega arith) (omega arith),
          rent_epoch_read (at_rent_epoch start) (add64 (at_rent_epoch start) 8) (omega arith)
              (omega arith),
          from_le_bytes-le_bytes 8 x.account.lamports hx.lamports,
          from_le_bytes-le_bytes 8 x.account.rent_epoch hx.rent_epoch,
          from_be_bytes-be_bytes 32 x.account.owner hx.owner,
          flag_of x.account.executable,
        )
        refl

module _ (mem : AlignedMemory) (vm : Vm mem) (sdk : Sdk) (sizes : List ℕ)
    (self : InstructionExecutor mem vm) (v : View) (r : Represents mem vm sdk sizes self v) where
  -- `get_account i` returns account `i` of the view.
  pub get_account_lem :
      (i size : ℕ) (x : Entry)
      → get_elem? sizes i ≡ some size
      → get_elem? v.entries i ≡ some x
      → get_account mem vm sdk self i ≡ ok x.account
  unfolding get_account
  get_account_lem i size x e f =
      rw (r.offsets, offset_at sdk sizes v.entries i size 8 r.entries e, r.bytes)
        (ap (λ l. read_account sdk l from) whole
          ∙ read_account-slot sdk size x hx front _ small from (omega lengths))
    where
      from : ℕ
      from = 8 + length (before sdk sizes v.entries i)

      front : List ℕ
      front = le_bytes 8 (length sizes) ++ before sdk sizes v.entries i

      whole :
          serialize sdk sizes v
          ≡ front ++ (entry_slot sdk size x ++ (after sdk sizes v.entries i ++ trailer sdk v))
      whole = serialize_split sdk sizes v i size x e f

      hx : IsEntry size x
      hx =
          let (y, there, h) = entry_at sdk sizes v.entries i size r.entries e in
          subst (IsEntry size) (some_inj (sym there ∙ f)) h

      small : length front + slot_len sdk size < u64_mod
      small = omega (lengths, before_bound sdk sizes v.entries i size r.entries e, r.small)
