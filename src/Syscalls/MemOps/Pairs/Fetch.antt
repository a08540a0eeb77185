-- ===== src/Syscalls/MemOps/Pairs/Fetch.antt =====
-- The chunk that a side gives for a round.
use mathlib.Core.Path.{ap₂}
use solana_bpf_simulator.Prelude.{
  ℕ, ◌+◌, ◌-◌, ◌≤◌, ◌<◌, ◌≡◌, refl, sym, ap, ◌∙◌, Bool, true, false, Option, none, some, leb, ◌==◌,
  inl, inr, Bool-cases, leb→le, arith,
}
use solana_bpf_simulator.Prelude.Outcome.{Outcome, ok, err, panic}
use solana_bpf_simulator.Words.{u64_mod}
use solana_bpf_simulator.Syscalls.Types.{AccessType, EbpfError, MemoryRegion, MemoryMapping}
use solana_bpf_simulator.Syscalls.MemOps.{
  MemoryChunkIterator, Chunk, region, front_chunk, back_chunk, next, next_back,
}
use solana_bpf_simulator.Syscalls.MemOps.Pairs.{Side, moved_on, memory_chunk}
use solana_bpf_simulator.Syscalls.MemOps.Pairs.Sides.{
  IsMapped, Maps, IsGood, Waits, Holds, Chunked, Fetched,
}

leb→gt : (a b : ℕ) → leb a b ≡ false → b < a
leb→gt a b h = ground arith

module _ (h : ℕ → ℕ) (memory_mapping : MemoryMapping) (maps : Maps memory_mapping h)
    (access : AccessType) (base n : ℕ) (small : base + n < u64_mod) where
  front_chunk-Holds :
      (p : ℕ) (it : MemoryChunkIterator) (r : MemoryRegion)
      → p < n
      → Waits h memory_mapping maps access base n small false p it
      → (r.vm_addr ≤ it.vm_addr_start) × (it.vm_addr_start < r.vm_addr_end)
      → IsMapped h r
      → Holds h memory_mapping maps access base n small false p
          (front_chunk it r).1
          (front_chunk it r).0
        × IsGood h (front_chunk it r).0
  unfolding front_chunk
  front_chunk-Holds p it r left w inside mapped =
      elim (Bool-cases (leb r.vm_addr_end it.vm_addr_end)) [
        | inl e ↦
            let fact = leb→le r.vm_addr_end it.vm_addr_end e in
            rw e (
              record {
                mapping = w.mapping;
                access_type = w.access_type;
                front = omega arith;
                back = omega arith;
                first = omega arith;
                last = omega arith;
                rest = omega (arith, fact);
              },
              record {
                mapped = mapped;
                first = omega arith;
                last = omega (arith, fact);
                positive = omega (arith, fact);
              },
            )
        | inr e ↦
            let fact = leb→gt r.vm_addr_end it.vm_addr_end e in
            rw e (
              record {
                mapping = w.mapping;
                access_type = w.access_type;
                front = omega arith;
                back = omega arith;
                first = omega arith;
                last = omega arith;
                rest = omega (arith, fact);
              },
              record {
                mapped = mapped;
                first = omega arith;
                last = omega (arith, fact);
                positive = omega (arith, fact);
              },
            )
      ]

  back_chunk-Holds :
      (p : ℕ) (it : MemoryChunkIterator) (r : MemoryRegion)
      → p < n
      → Waits h memory_mapping maps access base n small true p it
      → (r.vm_addr ≤ it.vm_addr_end - 1) × (it.vm_addr_end - 1 < r.vm_addr_end)
      → IsMapped h r
      → Holds h memory_mapping maps access base n small true p
          (back_chunk it r).1
          (back_chunk it r).0
        × IsGood h (back_chunk it r).0
  unfolding back_chunk
  back_chunk-Holds p it r left w inside mapped =
      elim (Bool-cases (leb it.vm_addr_start r.vm_addr)) [
        | inl e ↦
            let fact = leb→le it.vm_addr_start r.vm_addr e in
            rw e (
              record {
                mapping = w.mapping;
                access_type = w.access_type;
                front = omega arith;
                back = omega arith;
                first = omega arith;
                last = omega arith;
                rest = omega (arith, fact);
              },
              record {
                mapped = mapped;
                first = omega arith;
                last = omega (arith, fact);
                positive = omega (arith, fact);
              },
            )
        | inr e ↦
            let fact = leb→gt it.vm_addr_start r.vm_addr e in
            rw e (
              record {
                mapping = w.mapping;
                access_type = w.access_type;
                front = omega arith;
                back = omega arith;
                first = omega arith;
                last = omega arith;
                rest = omega (arith, fact);
              },
              record {
                mapped = mapped;
                first = omega arith;
                last = omega (arith, fact);
                positive = omega (arith, fact);
              },
            )
      ]

  fetch_front :
      (p : ℕ) (it : MemoryChunkIterator)
      → p ≤ n
      → Waits h memory_mapping maps access base n small false p it
      → Fetched h memory_mapping maps access base n small false p (moved_on (next it))
  unfolding next region
  fetch_front p it most w = elim (Bool-cases (it.vm_addr_start == it.vm_addr_end)) [
    | inl end ↦ rw end (ground arith)
    | inr more ↦ go more (it.memory_mapping.region it.access_type it.vm_addr_start) refl
  ]
    where
      go :
          (it.vm_addr_start == it.vm_addr_end) ≡ false
          → (o : Outcome EbpfError MemoryRegion)
          → it.memory_mapping.region it.access_type it.vm_addr_start ≡ o
          → Fetched h memory_mapping maps access base n small false p (moved_on (next it))
      go more (ok r) e =
          rw (next, more, region, e)
            (front_chunk-Holds p it r (ground arith) w
              (maps.inside it.access_type it.vm_addr_start r (
                ap (λ m. MemoryMapping.region m it.access_type (it.vm_addr_start)) (sym w.mapping)
                ∙ e))
              (maps.mapped it.access_type it.vm_addr_start r (
                ap (λ m. MemoryMapping.region m it.access_type (it.vm_addr_start)) (sym w.mapping)
                ∙ e)))
      go more (err x) e =
          rw (next, more, region, e)
            (
              p,
              ground arith,
              x,
              ap₂ memory_mapping.region (sym w.access_type) (omega arith)
                  ∙ ap (λ m. MemoryMapping.region m it.access_type it.vm_addr_start) (sym w.mapping)
                  ∙ e,
            )
      go more panic e = absurd (
          maps.returns it.access_type it.vm_addr_start (
            ap (λ m. MemoryMapping.region m it.access_type (it.vm_addr_start)) (sym w.mapping) ∙ e))

  fetch_back :
      (p : ℕ) (it : MemoryChunkIterator)
      → p ≤ n
      → Waits h memory_mapping maps access base n small true p it
      → Fetched h memory_mapping maps access base n small true p (moved_on (next_back it))
  unfolding next_back region
  fetch_back p it most w = elim (Bool-cases (it.vm_addr_start == it.vm_addr_end)) [
    | inl end ↦ rw end (ground arith)
    | inr more ↦ go more (it.memory_mapping.region it.access_type (it.vm_addr_end - 1)) refl
  ]
    where
      go :
          (it.vm_addr_start == it.vm_addr_end) ≡ false
          → (o : Outcome EbpfError MemoryRegion)
          → it.memory_mapping.region it.access_type (it.vm_addr_end - 1) ≡ o
          → Fetched h memory_mapping maps access base n small true p (moved_on (next_back it))
      go more (ok r) e =
          rw (next_back, more, region, e)
            (back_chunk-Holds p it r (ground arith) w
              (maps.inside it.access_type (it.vm_addr_end - 1) r (
                ap (λ m. MemoryMapping.region m it.access_type ((it.vm_addr_end - 1)))
                  (sym w.mapping)
                ∙ e))
              (maps.mapped it.access_type (it.vm_addr_end - 1) r (
                ap (λ m. MemoryMapping.region m it.access_type ((it.vm_addr_end - 1)))
                  (sym w.mapping)
                ∙ e)))
      go more (err x) e =
          rw (next_back, more, region, e)
            (
              n - p - 1,
              ground arith,
              x,
              ap₂ memory_mapping.region (sym w.access_type) (ground arith)
                  ∙ ap (λ m. MemoryMapping.region m it.access_type (it.vm_addr_end - 1))
                      (sym w.mapping)
                  ∙ e,
            )
      go more panic e = absurd (
          maps.returns it.access_type (it.vm_addr_end - 1) (
            ap (λ m. MemoryMapping.region m it.access_type ((it.vm_addr_end - 1))) (sym w.mapping)
            ∙ e))

  -- What the macro gives: the next bytes to process, or the end where there are none.
  pub memory_chunk-Fetched :
      (reverse : Bool) (p : ℕ) (side : Side)
      → p ≤ n
      → Chunked h memory_mapping maps access base n small reverse p side.iter side.chunk
      → Fetched h memory_mapping maps access base n small reverse p (memory_chunk reverse side)
  unfolding memory_chunk
  memory_chunk-Fetched reverse p side most c = go reverse side.chunk refl c
    where
      go :
          (back : Bool) (chunk : Option Chunk)
          → side.chunk ≡ chunk
          → Chunked h memory_mapping maps access base n small back p side.iter chunk
          → Fetched h memory_mapping maps access base n small back p (memory_chunk back side)
      go back (some chunk) e held = rw (memory_chunk, e) held
      go true none e w = rw (memory_chunk, e) (fetch_back p side.iter most w)
      go false none e w = rw (memory_chunk, e) (fetch_front p side.iter most w)
