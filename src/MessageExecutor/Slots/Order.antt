-- ===== src/MessageExecutor/Slots/Order.antt =====
-- The relation of slots by `ForkGraph` against the ancestors by `WorkingSlot`.
use solana_bpf_simulator.Prelude.{ℕ, ◌≡◌, ◌↔◌, true, arith}
use solana_bpf_simulator.MessageExecutor.Slots.{
  WorkingSlot, ancestor, equal, descendant, relationship, working_slot,
}

-- A slot is related to another one as an ancestor, the same slot or a descendant, and in the same way as
-- `is_ancestor` of the two slots says: no slot is unrelated or unknown.
pub relationship_iff :
    (slots_per_epoch a b : ℕ)
    → ((relationship a b ≡ ancestor)
        ↔ (WorkingSlot.is_ancestor (working_slot slots_per_epoch b) a ≡ true))
      × ((relationship a b ≡ descendant)
          ↔ (WorkingSlot.is_ancestor (working_slot slots_per_epoch a) b ≡ true))
      × ((relationship a b ≡ equal) ↔ (a ≡ b))
unfolding relationship working_slot
relationship_iff slots_per_epoch a b = ground arith
