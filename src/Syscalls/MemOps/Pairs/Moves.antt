-- ===== src/Syscalls/MemOps/Pairs/Moves.antt =====
-- What `memmove_non_contiguous` moves, whatever the regions are in which its two ranges lie.
use solana_bpf_simulator.Prelude.{
  ℕ, suc, ◌+◌, ◌≤◌, ◌<◌, ◌≡◌, ◌≢◌, refl, sym, subst, Bool, true, false, ltb, inl, inr, ◌⊎◌,
  Bool-cases, ltb→lt, arith,
}
use solana_bpf_simulator.Prelude.Outcome.{Outcome, ok, err, panic}
use solana_bpf_simulator.Prelude.Method.{◌>>=◌}
use solana_bpf_simulator.Words.{u64_mod, sub64}
use solana_bpf_simulator.Syscalls.Types.{AccessType, MemoryMapping, Runtime, Machine, Error}
use solana_bpf_simulator.Syscalls.MemOps
use solana_bpf_simulator.Syscalls.MemOps.Pairs.{iter_memory_pair_chunks, memmove_non_contiguous}
use solana_bpf_simulator.Syscalls.MemOps.Pairs.Bytes.{Copied}
use solana_bpf_simulator.Syscalls.MemOps.Pairs.Sides.{Maps, Unmapped, new-Waits}
use solana_bpf_simulator.Syscalls.MemOps.Pairs.Direction.{
  Done, Ordered, Done-decided, Done-all, Done-none, Done-lt, direction-Ordered,
}
use solana_bpf_simulator.Syscalls.MemOps.Pairs.Loop.{Ends, pair_loop-Ends}

module _ (rt : Runtime) (h : ℕ → ℕ) (dst_addr src_addr n : ℕ) (memory_mapping : MemoryMapping)
    (start : Machine rt) where
  -- A range has no end in 64 bits, or a byte of one has no region.
  abbrev pub Fails : Type 0
  Fails =
      (u64_mod ≤ src_addr + n)
      ⊎ (u64_mod ≤ dst_addr + n)
      ⊎ Unmapped memory_mapping AccessType.load src_addr n
      ⊎ Unmapped memory_mapping AccessType.store dst_addr n

  -- Nothing changes but bytes of the destination.
  abbrev pub Keeps : Machine rt → Type 0
  Keeps machine =
      ((a : ℕ) → ((j : ℕ) → j < n → a ≢ h (dst_addr + j)) → machine.host a ≡ start.host a)
      × (machine.context ≡ start.context)

  -- All bytes are moved, as they were before the call; or there is an error with one of its reasons, and
  -- each byte of the destination is moved or as it was.
  unfoldable pub Moves : Outcome (Error rt × Machine rt) (Bool × Machine rt) → Type 0
  Moves (ok (true, machine)) =
      ((j : ℕ) → j < n → machine.host (h (dst_addr + j)) ≡ start.host (h (src_addr + j)))
      × Keeps machine
  Moves (ok (false, machine)) = ⊥
  Moves (err (e, machine)) =
      Fails
      × ((j : ℕ)
          → j < n
          → (machine.host (h (dst_addr + j)) ≡ start.host (h (src_addr + j)))
            ⊎ (machine.host (h (dst_addr + j)) ≡ start.host (h (dst_addr + j))))
      × Keeps machine
  Moves panic = ⊥

  Keeps-Copied :
      (apart : (a b : ℕ) → h a ≡ h b → a ≡ b) (reverse : Bool) (p : ℕ) (machine : Machine rt)
      → p ≤ n
      → Copied h apart src_addr dst_addr (Done reverse n p) start.host machine.host
      → machine.context ≡ start.context
      → Keeps machine
  Keeps-Copied apart reverse p machine most c same =
      (λ a untouched. c.kept a (λ j d. untouched j (Done-lt reverse n p j most d)), same)

  module _ (apart : (a b : ℕ) → h a ≡ h b → a ≡ b) (maps : Maps memory_mapping h) where
    why :
        Unmapped memory_mapping AccessType.load src_addr n
          ⊎ Unmapped memory_mapping AccessType.store dst_addr n
        → Fails
    why (inl src) = inr (inr (inl src))
    why (inr dst) = inr (inr (inr dst))

    Ends-Moves :
        (src_small : src_addr + n < u64_mod) (dst_small : dst_addr + n < u64_mod) (reverse : Bool)
        (ordered : Ordered reverse src_addr dst_addr n)
        (o : Outcome (Error rt × Machine rt) (Bool × Machine rt))
        → Ends rt h apart memory_mapping maps src_addr dst_addr n src_small dst_small reverse
            ordered start o
        → Moves o
    unfolding Ends Moves
    Ends-Moves ss ds reverse ordered (ok (true, machine)) (c, same) = (
      λ j below. c.copied j (Done-all reverse n j below),
      Keeps-Copied apart reverse n machine (omega arith) c same,
    )
    Ends-Moves ss ds reverse ordered (ok (false, machine)) e = e
    Ends-Moves ss ds reverse ordered (err (x, machine)) (lost, (p, most, (c, same))) = (
      why lost,
      (λ j below. elim (Done-decided reverse n p j below) [
        | inl d ↦ inl (c.copied j d)
        | inr not_yet ↦ inr (
            c.kept (h (dst_addr + j)) (λ k d clash.
              let same_byte : j ≡ k = omega (arith, apart _ _ clash) in
              not_yet (subst (Done reverse n p) (sym same_byte) d)))
      ]),
      Keeps-Copied apart reverse p machine most c same,
    )
    Ends-Moves ss ds reverse ordered panic e = e

    -- Where the mapping finds a region with the address inside, or an error, each region lies in one
    -- piece at the host, and no two addresses of the program at one place: the call ends within a
    -- round for each byte and one more, and moves all bytes as they were before, also where the ranges
    -- overlap and wherever at the host the regions lie, and nothing else changes. Only where a range
    -- does not end below 2 ^ 64 or the mapping has an error for one of its bytes does it return an
    -- error, and then each byte of the destination is moved or as it was, and nothing else changes. It
    -- never panics.
    pub memmove_non_contiguous-Moves :
        Moves (memmove_non_contiguous rt dst_addr src_addr n memory_mapping start)
    unfolding memmove_non_contiguous iter_memory_pair_chunks MemOps.new Moves
    memmove_non_contiguous-Moves = elim (Bool-cases (ltb (src_addr + n) u64_mod)) [
      | inr long ↦
          rw (memmove_non_contiguous, ◌>>=◌, MemOps.new, long) (untouched (inl (ground arith)))
      | inl ss ↦ elim (Bool-cases (ltb (dst_addr + n) u64_mod)) [
        | inr long ↦
            rw (memmove_non_contiguous, ◌>>=◌, MemOps.new, ss, long)
              (untouched (inr (inl (ground arith))))
        | inl ds ↦
            rw (memmove_non_contiguous, ◌>>=◌, MemOps.new, ss, ds)
              (Ends-Moves (ltb→lt _ _ ss) (ltb→lt _ _ ds) reverse (ordered ss ds) _ (
                pair_loop-Ends rt h apart memory_mapping maps src_addr dst_addr n (ltb→lt _ _ ss)
                  (ltb→lt _ _ ds) reverse (ordered ss ds) start (suc n) 0 _ _ start (omega arith)
                  (omega arith)
                  (new-Waits h memory_mapping maps AccessType.load src_addr n (ltb→lt _ _ ss)
                    reverse _ refl refl refl refl)
                  (new-Waits h memory_mapping maps AccessType.store dst_addr n (ltb→lt _ _ ds)
                    reverse _ refl refl refl refl)
                  (
                    record { copied = λ j d. absurd (Done-none reverse n j d); kept = λ a u. refl },
                    refl,
                  )))
      ]
    ]
      where
        reverse : Bool
        reverse = ltb (sub64 dst_addr src_addr) n

        ordered :
            ltb (src_addr + n) u64_mod ≡ true
            → ltb (dst_addr + n) u64_mod ≡ true
            → Ordered reverse src_addr dst_addr n
        ordered ss ds =
            direction-Ordered src_addr dst_addr n (ltb→lt _ _ ss) (ltb→lt _ _ ds) reverse refl

        untouched :
            Fails
            → Fails
              × ((j : ℕ)
                  → j < n
                  → (start.host (h (dst_addr + j)) ≡ start.host (h (src_addr + j)))
                    ⊎ (start.host (h (dst_addr + j)) ≡ start.host (h (dst_addr + j))))
              × Keeps start
        untouched fails = (fails, (λ j below. inr refl), ((λ a u. refl), refl))
