-- ===== src/MessageExecutor/Slots.antt =====
-- src/message_executor/mod.rs: `WorkingSlot` and `ForkGraph`, by which the cache of programs compares
-- slots. The simulator has a single fork.
pub mod Order
use Prim.Native.Nat.{compare, Ordering}
use solana_bpf_simulator.Prelude.{ℕ, ◌/◌, Bool, Option, some, ltb}

-- The trait `WorkingSlot` of the Solana runtime.
pub record WorkingSlot : Type 0 where
  pub current_slot : ℕ
  pub current_epoch : ℕ
  pub is_ancestor : ℕ → Bool

-- `BlockRelation` of the Solana runtime.
pub data BlockRelation : Type 0 where
  ancestor equal descendant unrelated unknown : BlockRelation

module _ (default_slots_per_epoch : ℕ) where
  -- `WorkingSlot(slot)`
  unfoldable pub working_slot : ℕ → WorkingSlot
  working_slot slot = record {
    current_slot = slot;
    current_epoch = slot / default_slots_per_epoch;
    is_ancestor = λ other. ltb other slot;
  }

  unfoldable pub slot_epoch : ℕ → Option ℕ
  slot_epoch slot = some (slot / default_slots_per_epoch)

-- `ForkGraph::relationship`
unfoldable pub relationship : ℕ → ℕ → BlockRelation
relationship a b = elim (compare a b) [
  | Ordering.eq ↦ equal
  | Ordering.lt ↦ ancestor
  | Ordering.gt ↦ descendant
]
