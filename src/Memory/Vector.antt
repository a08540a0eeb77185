-- ===== src/Memory/Vector.antt =====
-- A byte vector with a capacity meets what is assumed of `AlignedMemory`; the tests run on it.
use solana_bpf_simulator.Prelude.{
  ℕ, ◌+◌, ◌≤◌, ◌<◌, ◌≡◌, refl, ap, none, some, List, [], ◌++◌, append_assoc, arith, length,
  replicate, leb, le→leb, if◌then◌else◌,
}
use solana_bpf_simulator.Memory.{AlignedMemory, IsAlignedMemory}

pub record Vector : Type 0 where
  pub content : List ℕ
  pub room : ℕ

abbrev pub vector_memory : AlignedMemory
vector_memory = record {
  Memory = Vector;
  with_capacity = λ n. record { content = []; room = n };
  zero_filled = λ n. record { content = replicate n 0; room = n };
  as_slice = λ m. m.content;
  as_slice_mut = λ m l. record m { content = l };
  write_unchecked = λ m v. record m { content = m.content ++ v };
  write_all_unchecked = λ m v. record m { content = m.content ++ v };
  fill_write = λ m num value.
      if leb (length m.content + num) m.room
      then some (record m { content = m.content ++ replicate num value })
      else none;
  capacity = λ m. m.room;
}

fill_write-fits :
    (m : Vector) (num value : ℕ)
    → length m.content + num ≤ m.room
    → vector_memory.fill_write m num value
      ≡ some (record m { content = m.content ++ replicate num value })
fill_write-fits m num value h = rw (le→leb (length m.content + num) m.room h)

fill_write-full :
    (m : Vector) (num value : ℕ)
    → m.room < length m.content + num
    → vector_memory.fill_write m num value ≡ none
fill_write-full m num value h = ground arith

pub vector_memory-IsAlignedMemory : IsAlignedMemory vector_memory
vector_memory-IsAlignedMemory = record {
  as_slice-with_capacity = λ n. refl;
  capacity-with_capacity = λ n. refl;
  as_slice-zero_filled = λ n. refl;
  as_slice-as_slice_mut = λ m l h. refl;
  as_slice_mut-as_slice_mut = λ m k l g h. refl;
  as_slice-write_all = λ m v h. refl;
  capacity-write_all = λ m v h. refl;
  write_all-write_all = λ m v w h. ap (λ l. record m { content = l }) (append_assoc m.content v w);
  write_unchecked-write_all = λ m v h. refl;
  fill_write-fits = fill_write-fits;
  fill_write-full = fill_write-full;
}
