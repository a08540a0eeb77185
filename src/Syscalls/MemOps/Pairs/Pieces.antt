-- ===== src/Syscalls/MemOps/Pairs/Pieces.antt =====
-- A piece of a chunk, and the side behind it.
use solana_bpf_simulator.Prelude.{
  ℕ, ◌+◌, ◌-◌, ◌≤◌, ◌<◌, ◌≡◌, Bool, true, false, ◌==◌, inl, inr, Bool-cases, arith,
}
use solana_bpf_simulator.Words.{u64_mod}
use solana_bpf_simulator.Syscalls.Types.{AccessType, MemoryMapping}
use solana_bpf_simulator.Syscalls.MemOps.{MemoryChunkIterator, Chunk}
use solana_bpf_simulator.Syscalls.MemOps.Pairs.{piece_addr, advanced}
use solana_bpf_simulator.Syscalls.MemOps.Pairs.Sides.{Maps, IsGood, Holds, Chunked, offset}

module _ (h : ℕ → ℕ) (memory_mapping : MemoryMapping) (maps : Maps memory_mapping h)
    (access : AccessType) (base n : ℕ) (small : base + n < u64_mod) where
  pub piece_addr-offset :
      (reverse : Bool) (p k : ℕ) (it : MemoryChunkIterator) (c : Chunk)
      → Holds h memory_mapping maps access base n small reverse p it c
      → k ≤ c.len
      → piece_addr reverse k c ≡ base + offset reverse n p k
  unfolding piece_addr
  piece_addr-offset true p k it c held most = omega (arith, held.first, held.rest)
  piece_addr-offset false p k it c held most = omega (arith, held.first)

  -- A piece lies in the region of its chunk.
  pub piece_within :
      (reverse : Bool) (p k : ℕ) (it : MemoryChunkIterator) (c : Chunk)
      → Holds h memory_mapping maps access base n small reverse p it c
      → IsGood h c
      → k ≤ c.len
      → (c.region.vm_addr ≤ base + offset reverse n p k)
        × (base + offset reverse n p k + k ≤ c.region.vm_addr_end)
  piece_within true p k it c held good most =
      omega (arith, held.first, held.rest, good.first, good.last)
  piece_within false p k it c held good most = omega (arith, held.first, good.first, good.last)

  pub advanced-Chunked :
      (reverse : Bool) (p k : ℕ) (it : MemoryChunkIterator) (c : Chunk)
      → Holds h memory_mapping maps access base n small reverse p it c
      → IsGood h c
      → k ≤ c.len
      → Chunked h memory_mapping maps access base n small reverse (p + k) it (advanced reverse k c)
  unfolding advanced
  advanced-Chunked true p k it c held good most = elim (Bool-cases (c.len - k == 0)) [
    | inl e ↦
        let all : c.len ≡ k = ground arith in
        rw e (record {
          mapping = held.mapping;
          access_type = held.access_type;
          front = omega arith;
          back = omega arith;
        })
    | inr e ↦
        let some_left : k < c.len = ground arith in
        rw e (
          record {
            mapping = held.mapping;
            access_type = held.access_type;
            front = omega arith;
            back = omega arith;
            first = omega arith;
            last = omega arith;
            rest = omega arith;
          },
          record {
            mapped = good.mapped;
            first = omega arith;
            last = omega arith;
            positive = omega arith;
          },
        )
  ]
  advanced-Chunked false p k it c held good most = elim (Bool-cases (c.len - k == 0)) [
    | inl e ↦
        let all : c.len ≡ k = ground arith in
        rw e (record {
          mapping = held.mapping;
          access_type = held.access_type;
          front = omega arith;
          back = omega arith;
        })
    | inr e ↦
        let some_left : k < c.len = ground arith in
        rw e (
          record {
            mapping = held.mapping;
            access_type = held.access_type;
            front = omega arith;
            back = omega arith;
            first = omega arith;
            last = omega arith;
            rest = omega arith;
          },
          record {
            mapped = good.mapped;
            first = omega arith;
            last = omega arith;
            positive = omega arith;
          },
        )
  ]
