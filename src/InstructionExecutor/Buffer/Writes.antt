-- ===== src/InstructionExecutor/Buffer/Writes.antt =====
-- One write, and one write after others: where it fits, it extends what was written before.
use mathlib.Core.Path.{ap₂}
use solana_bpf_simulator.Prelude.{
  ℕ, ◌+◌, ◌-◌, ◌≤◌, ◌<◌, ◌≡◌, refl, ap, subst, ◌∙◌, Option, none, some, List, ◌++◌, arith, length,
  length-append, length-replicate, replicate,
}
use solana_bpf_simulator.Prelude.Slices.{splice, overwrite-splice, splice-splice, length-splice}
use solana_bpf_simulator.Prelude.Outcome.{ok}
use solana_bpf_simulator.Words.{u64_mod, add64}
use solana_bpf_simulator.Memory.{AlignedMemory, IsAlignedMemory}
use solana_bpf_simulator.InstructionExecutor.Buffer.{fill_write, write, write_all}

module _ (mem : AlignedMemory) where
  -- The buffer `b` after `acc` was written at `at`, with the position behind it.
  abbrev pub written : mem.Memory → Option ℕ → List ℕ → mem.Memory
  written b none acc = mem.write_all_unchecked b acc
  written b (some from) acc = mem.as_slice_mut b (splice from acc (mem.as_slice b))

  abbrev pub next : mem.Memory → Option ℕ → List ℕ → ℕ
  next b none acc = length (mem.as_slice b) + length acc
  next b (some from) acc = from + length acc

  abbrev pub cursor : Option ℕ → List ℕ → Option ℕ
  cursor none acc = none
  cursor (some from) acc = some (from + length acc)

  -- Appended bytes stay within the capacity, and overwritten ones within the buffer.
  abbrev pub Fits : mem.Memory → Option ℕ → ℕ → Type 0
  Fits b none n = length (mem.as_slice b) + n ≤ mem.capacity b
  Fits b (some from) n = (from + n ≤ length (mem.as_slice b)) × (length (mem.as_slice b) < u64_mod)

module _ (mem : AlignedMemory) (laws : IsAlignedMemory mem) where
  open laws use {
    as_slice-as_slice_mut, as_slice_mut-as_slice_mut, as_slice-write_all, capacity-write_all,
    write_all-write_all, write_unchecked-write_all, fill_write-fits,
  }

  pub write_all_first :
      (b : mem.Memory) (at : Option ℕ) (v : List ℕ)
      → Fits mem b at (length v)
      → write_all mem b at v ≡ ok (next mem b at v, written mem b at v)
  unfolding write_all
  write_all_first b none v h =
      rw (as_slice-write_all b v h)
        (ap (λ n. ok (n, written mem b none v)) (length-append (mem.as_slice b) v))
  write_all_first b (some from) v h =
      let straight : add64 from (length v) ≡ from + length v = omega arith in
      rw (overwrite-splice from (add64 from (length v)) v (mem.as_slice b) straight (omega arith))
        (ap (λ n. ok (n, written mem b (some from) v)) straight)

  pub write-write_all :
      (b : mem.Memory) (at : Option ℕ) (v : List ℕ)
      → Fits mem b at (length v)
      → write mem b at v ≡ write_all mem b at v
  unfolding write write_all
  write-write_all b none v h = rw (write_unchecked-write_all b v h)
  write-write_all b (some from) v h = refl

  pub fill_write-write_all :
      (b : mem.Memory) (at : Option ℕ) (num value : ℕ)
      → Fits mem b at num
      → fill_write mem b at num value ≡ write_all mem b at (replicate num value)
  unfolding fill_write write_all
  fill_write-write_all b none num value h = rw (fill_write-fits b num value h, fill_write)
  fill_write-write_all b (some from) num value h = rw (count, length-replicate num value)
    where
      count : add64 from num - from ≡ num
      count = omega arith

  pub as_slice-written :
      (b : mem.Memory) (from : ℕ) (acc : List ℕ)
      → from + length acc ≤ length (mem.as_slice b)
      → mem.as_slice (written mem b (some from) acc) ≡ splice from acc (mem.as_slice b)
  as_slice-written b from acc h =
      as_slice-as_slice_mut b _ (length-splice from acc (mem.as_slice b) h)

  Fits-written :
      (b : mem.Memory) (at : Option ℕ) (acc v : List ℕ)
      → Fits mem b at (length acc + length v)
      → Fits mem (written mem b at acc) (cursor mem at acc) (length v)
  Fits-written b none acc v h =
      rw (as_slice-write_all b acc (omega arith), capacity-write_all b acc (omega arith))
        (omega (arith, length-append (mem.as_slice b) acc))
  Fits-written b (some from) acc v h =
      rw (as_slice-written b from acc (omega arith))
        (omega (arith, length-splice from acc (mem.as_slice b)))

  next-written :
      (b : mem.Memory) (at : Option ℕ) (acc v : List ℕ)
      → Fits mem b at (length acc + length v)
      → next mem (written mem b at acc) (cursor mem at acc) v ≡ next mem b at (acc ++ v)
  next-written b none acc v h =
      rw (as_slice-write_all b acc (omega arith))
        (omega (arith, length-append (mem.as_slice b) acc, length-append acc v))
  next-written b (some from) acc v h = omega (arith, length-append acc v)

  pub written-written :
      (b : mem.Memory) (at : Option ℕ) (acc v : List ℕ)
      → Fits mem b at (length acc + length v)
      → written mem (written mem b at acc) (cursor mem at acc) v ≡ written mem b at (acc ++ v)
  written-written b none acc v h = write_all-write_all b acc v (omega arith)
  written-written b (some from) acc v h =
      ap (λ l. mem.as_slice_mut (written mem b (some from) acc) (splice (from + length acc) v l))
        (as_slice-written b from acc (omega arith))
      ∙ ap (mem.as_slice_mut (written mem b (some from) acc))
          (splice-splice from (from + length acc) acc v (mem.as_slice b) refl (omega arith))
      ∙ as_slice_mut-as_slice_mut b _ _ (length-splice from acc (mem.as_slice b) (omega arith))
          (length-splice from (acc ++ v) (mem.as_slice b) (omega (arith, length-append acc v)))

  -- A write behind what was written extends it.
  pub write_all_step :
      (b : mem.Memory) (at : Option ℕ) (acc v : List ℕ)
      → Fits mem b at (length acc + length v)
      → write_all mem (written mem b at acc) (cursor mem at acc) v
        ≡ ok (next mem b at (acc ++ v), written mem b at (acc ++ v))
  write_all_step b at acc v h =
      write_all_first (written mem b at acc) (cursor mem at acc) v (Fits-written b at acc v h)
      ∙ ap₂ (λ n m. ok (n, m)) (next-written b at acc v h) (written-written b at acc v h)

  pub write_step :
      (b : mem.Memory) (at : Option ℕ) (acc v : List ℕ)
      → Fits mem b at (length acc + length v)
      → write mem (written mem b at acc) (cursor mem at acc) v
        ≡ ok (next mem b at (acc ++ v), written mem b at (acc ++ v))
  write_step b at acc v h =
      write-write_all (written mem b at acc) (cursor mem at acc) v (Fits-written b at acc v h)
      ∙ write_all_step b at acc v h

  pub fill_write_step :
      (b : mem.Memory) (at : Option ℕ) (acc : List ℕ) (num value : ℕ)
      → Fits mem b at (length acc + num)
      → fill_write mem (written mem b at acc) (cursor mem at acc) num value
        ≡ ok (
          next mem b at (acc ++ replicate num value),
          written mem b at (acc ++ replicate num value),
        )
  fill_write_step b at acc num value h =
      fill_write-write_all (written mem b at acc) (cursor mem at acc) num value (
        subst (λ n. Fits mem (written mem b at acc) (cursor mem at acc) n)
          (length-replicate num value) (Fits-written b at acc (replicate num value) ready))
      ∙ write_all_step b at acc (replicate num value) ready
    where
      ready : Fits mem b at (length acc + length (replicate num value))
      ready = rw (length-replicate num value) h
