-- ===== src/InstructionExecutor/View/Serialize.antt =====
-- How the bytes of a view change with one of its parts.
use solana_bpf_simulator.Prelude.{
  ℕ, ◌+◌, ◌≤◌, ◌≡◌, refl, sym, ap, ◌∙◌, some, List, [], ◌++◌, append_assoc, append-nil, length,
  take, drop, take-append-drop, length-take, length-drop, get_elem?, set, arith, lengths,
}
use solana_bpf_simulator.Prelude.Bytes.{le_bytes, be_bytes}
use solana_bpf_simulator.Prelude.Slices.{splice, splice_middle}
use solana_bpf_simulator.InstructionExecutor.Types.{Sdk}
use solana_bpf_simulator.InstructionExecutor.View.{
  Entry, View, IsEntry, AreEntries, entry_slot, slots, slots_len, trailer, serialize, buffer_len,
}
use solana_bpf_simulator.InstructionExecutor.View.Slots.{
  before, after, slots_split, slots-set, length-entry_slot, length-slots,
}

module _ (sdk : Sdk) (sizes : List ℕ) (v : View) where
  pub length-serialize :
      AreEntries sdk sizes v.entries
      → length (serialize sdk sizes v) ≡ buffer_len sdk sizes (length v.instruction)
  unfolding serialize
  length-serialize h = omega (lengths, length-slots sdk sizes v.entries h)

  -- Slot `i` of a serialized view, between what stands before and behind it.
  pub serialize_split :
      (i size : ℕ) (x : Entry)
      → get_elem? sizes i ≡ some size
      → get_elem? v.entries i ≡ some x
      → serialize sdk sizes v
        ≡ (le_bytes 8 (length sizes) ++ before sdk sizes v.entries i)
          ++ (entry_slot sdk size x ++ (after sdk sizes v.entries i ++ trailer sdk v))
  unfolding serialize
  serialize_split i size x e f =
      rw (slots_split sdk sizes v.entries i size x e f) (simp append_assoc)

  pub serialize-set :
      (i size : ℕ) (x y : Entry)
      → get_elem? sizes i ≡ some size
      → get_elem? v.entries i ≡ some x
      → serialize sdk sizes (record v { entries = set v.entries i y })
        ≡ (le_bytes 8 (length sizes) ++ before sdk sizes v.entries i)
          ++ (entry_slot sdk size y ++ (after sdk sizes v.entries i ++ trailer sdk v))
  unfolding serialize
  serialize-set i size x y e f =
      rw (slots-set sdk sizes v.entries i size x y e f) (simp append_assoc)

  -- Writing a slot where slot `i` stands makes the view with account `i` replaced.
  pub splice-slot :
      (i size at : ℕ) (x y : Entry)
      → get_elem? sizes i ≡ some size
      → get_elem? v.entries i ≡ some x
      → IsEntry size x
      → IsEntry size y
      → at ≡ 8 + length (before sdk sizes v.entries i)
      → splice at (entry_slot sdk size y) (serialize sdk sizes v)
        ≡ serialize sdk sizes (record v { entries = set v.entries i y })
  splice-slot i size at x y e f hx hy a =
      ap (splice at (entry_slot sdk size y)) (serialize_split i size x e f)
      ∙ splice_middle at (entry_slot sdk size y) _ (entry_slot sdk size x) _ (omega lengths)
          (length-entry_slot sdk size y hy ∙ sym (length-entry_slot sdk size x hx))
      ∙ sym (serialize-set i size x y e f)

  -- Writing behind the length of the instruction replaces its first bytes.
  pub splice-instruction :
      (at : ℕ) (bytes : List ℕ)
      → AreEntries sdk sizes v.entries
      → length bytes ≤ length v.instruction
      → at ≡ 8 + slots_len sdk sizes + 8
      → splice at bytes (serialize sdk sizes v)
        ≡ serialize sdk sizes
            (record v { instruction = bytes ++ drop (length bytes) v.instruction })
  unfolding serialize
  splice-instruction at bytes h short a =
      ap (splice at bytes) opened
      ∙ splice_middle at bytes front (take n v.instruction) (drop n v.instruction ++ id) place count
      ∙ closed
    where
      n : ℕ
      n = length bytes

      id : List ℕ
      id = be_bytes 32 v.program_id

      front : List ℕ
      front =
          le_bytes 8 (length sizes)
          ++ (slots sdk sizes v.entries ++ le_bytes 8 (length v.instruction))

      place : at ≡ length front
      place = omega (lengths, length-slots sdk sizes v.entries h)

      count : n ≡ length (take n v.instruction)
      count = omega (arith, length-take n v.instruction)

      opened :
          serialize sdk sizes v ≡ front ++ (take n v.instruction ++ (drop n v.instruction ++ id))
      opened =
          ap
            (λ t.
              le_bytes 8 (length sizes)
              ++ (slots sdk sizes v.entries ++ (le_bytes 8 (length v.instruction) ++ (t ++ id))))
            (sym (take-append-drop n v.instruction))
          ∙ simp append_assoc

      same : length v.instruction ≡ length (bytes ++ drop n v.instruction)
      same = omega (lengths, length-drop n v.instruction)

      closed :
          front ++ (bytes ++ (drop n v.instruction ++ id))
          ≡ serialize sdk sizes (record v { instruction = bytes ++ drop n v.instruction })
      closed = rw (← same) (simp append_assoc)

  -- Writing the length that stands there already changes nothing.
  pub splice-instruction_len :
      (at : ℕ)
      → AreEntries sdk sizes v.entries
      → at ≡ 8 + slots_len sdk sizes
      → splice at (le_bytes 8 (length v.instruction)) (serialize sdk sizes v)
        ≡ serialize sdk sizes v
  unfolding serialize
  splice-instruction_len at h a =
      ap (splice at len_bytes) (sym (append_assoc head (slots sdk sizes v.entries) _))
      ∙ splice_middle at len_bytes (head ++ slots sdk sizes v.entries) len_bytes _
          (omega (lengths, length-slots sdk sizes v.entries h)) refl
      ∙ append_assoc head (slots sdk sizes v.entries) _
    where
      head : List ℕ
      head = le_bytes 8 (length sizes)

      len_bytes : List ℕ
      len_bytes = le_bytes 8 (length v.instruction)

  pub splice-program_id :
      (at program_id : ℕ)
      → AreEntries sdk sizes v.entries
      → at ≡ 8 + slots_len sdk sizes + (8 + length v.instruction)
      → splice at (be_bytes 32 program_id) (serialize sdk sizes v)
        ≡ serialize sdk sizes (record v { program_id = program_id })
  unfolding serialize
  splice-program_id at program_id h a =
      ap (splice at (be_bytes 32 program_id)) opened
      ∙ splice_middle at (be_bytes 32 program_id) front (be_bytes 32 v.program_id) []
          (omega (lengths, length-slots sdk sizes v.entries h)) (omega lengths)
      ∙ closed
    where
      front : List ℕ
      front =
          le_bytes 8 (length sizes)
          ++ (slots sdk sizes v.entries ++ (le_bytes 8 (length v.instruction) ++ v.instruction))

      opened : serialize sdk sizes v ≡ front ++ (be_bytes 32 v.program_id ++ [])
      opened = simp (append_assoc, append-nil)

      closed :
          front ++ (be_bytes 32 program_id ++ [])
          ≡ serialize sdk sizes (record v { program_id = program_id })
      closed = simp (append_assoc, append-nil)
