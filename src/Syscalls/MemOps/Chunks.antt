-- ===== src/Syscalls/MemOps/Chunks.antt =====
-- The pieces that the chunk iterator cuts, from the front and from the back.
use solana_bpf_simulator.Prelude.{
  ℕ, ◌+◌, ◌-◌, ◌≤◌, ◌<◌, ◌≡◌, refl, false, some, leb, ◌==◌, leb→le, Bool-cases, inl, inr, arith,
}
use solana_bpf_simulator.Prelude.Outcome.{ok}
use solana_bpf_simulator.Syscalls.Types.{AccessType, MemoryRegion, MemoryMapping}
use solana_bpf_simulator.Syscalls.MemOps.{
  MemoryChunkIterator, Chunk, region, front_chunk, back_chunk, next, next_back,
}

leb→gt : (a b : ℕ) → leb a b ≡ false → b < a
leb→gt a b h = ground arith

-- The region that `MemoryMapping::region` finds has the address in it.
abbrev pub FindsRegions : MemoryMapping → Type 0
FindsRegions memory_mapping =
    (access_type : AccessType) (vm_addr : ℕ) (r : MemoryRegion)
    → memory_mapping.region access_type vm_addr ≡ ok r
    → (r.vm_addr ≤ vm_addr) × (vm_addr < r.vm_addr_end)

-- A chunk is a part of its region, and is not empty.
pub record IsChunk (c : Chunk) : Type 0 where
  pub first : c.region.vm_addr ≤ c.vm_addr
  pub last : c.vm_addr + c.len ≤ c.region.vm_addr_end
  pub positive : 0 < c.len

module _ (it : MemoryChunkIterator) (finds : FindsRegions it.memory_mapping)
    (r : MemoryRegion) where
  left_over : it.vm_addr_start < it.vm_addr_end → (it.vm_addr_start == it.vm_addr_end) ≡ false
  left_over left = ground arith

  -- Where bytes are left, the first of them lies in a region, and a region found for an address has it
  -- inside: `next` takes a chunk off the front, which is not empty and lies in its region, and the rest
  -- begins where the chunk ends and ends where it did.
  pub next_lem :
      it.vm_addr_start < it.vm_addr_end
      → it.memory_mapping.region it.access_type it.vm_addr_start ≡ ok r
      → (c : Chunk) × (rest : MemoryChunkIterator) × (next it ≡ some (ok (c, rest)))
        × IsChunk c
        × (c.vm_addr ≡ it.vm_addr_start)
        × (rest.vm_addr_start ≡ c.vm_addr + c.len)
        × (rest.vm_addr_end ≡ it.vm_addr_end)
        × (rest.vm_addr_start ≤ rest.vm_addr_end)
  unfolding next region front_chunk
  next_lem left e = elim (Bool-cases (leb r.vm_addr_end it.vm_addr_end)) [
    | inl h ↦ (
      record { region = r; vm_addr = it.vm_addr_start; len = r.vm_addr_end - it.vm_addr_start },
      record it { vm_addr_start = r.vm_addr_end },
      rw (left_over left, e, h) refl,
      record { first = inside.0; last = omega (arith, inside); positive = omega (arith, inside) },
      refl,
      omega (arith, inside),
      refl,
      leb→le _ _ h,
    )
    | inr h ↦ (
      record { region = r; vm_addr = it.vm_addr_start; len = it.vm_addr_end - it.vm_addr_start },
      record it { vm_addr_start = it.vm_addr_end },
      rw (left_over left, e, h) refl,
      record {
        first = inside.0;
        last = omega (arith, inside, leb→gt _ _ h);
        positive = omega arith;
      },
      refl,
      omega arith,
      refl,
      omega arith,
    )
  ]
    where
      inside : (r.vm_addr ≤ it.vm_addr_start) × (it.vm_addr_start < r.vm_addr_end)
      inside = finds it.access_type it.vm_addr_start r e

  -- Where bytes are left, the last of them lies in a region, and a region found for an address has it
  -- inside: `next_back` takes a chunk off the end, which is not empty and lies in its region, and the
  -- rest ends where the chunk begins and begins where it did.
  pub next_back_lem :
      it.vm_addr_start < it.vm_addr_end
      → it.memory_mapping.region it.access_type (it.vm_addr_end - 1) ≡ ok r
      → (c : Chunk) × (rest : MemoryChunkIterator) × (next_back it ≡ some (ok (c, rest)))
        × IsChunk c
        × (c.vm_addr + c.len ≡ it.vm_addr_end)
        × (rest.vm_addr_end ≡ c.vm_addr)
        × (rest.vm_addr_start ≡ it.vm_addr_start)
        × (rest.vm_addr_start ≤ rest.vm_addr_end)
  unfolding next_back region back_chunk
  next_back_lem left e = elim (Bool-cases (leb it.vm_addr_start r.vm_addr)) [
    | inl h ↦ (
      record { region = r; vm_addr = r.vm_addr; len = it.vm_addr_end - r.vm_addr },
      record it { vm_addr_end = r.vm_addr },
      rw (left_over left, e, h) refl,
      record {
        first = omega arith;
        last = omega (arith, inside);
        positive = omega (arith, inside);
      },
      omega (arith, inside),
      refl,
      refl,
      leb→le _ _ h,
    )
    | inr h ↦ (
      record { region = r; vm_addr = it.vm_addr_start; len = it.vm_addr_end - it.vm_addr_start },
      record it { vm_addr_end = it.vm_addr_start },
      rw (left_over left, e, h) refl,
      record {
        first = omega (arith, leb→gt _ _ h);
        last = omega (arith, inside);
        positive = omega arith;
      },
      omega arith,
      refl,
      refl,
      omega arith,
    )
  ]
    where
      inside : (r.vm_addr ≤ it.vm_addr_end - 1) × (it.vm_addr_end - 1 < r.vm_addr_end)
      inside = finds it.access_type (it.vm_addr_end - 1) r e
