-- ===== src/Prelude/Post.antt =====
-- What a method promises: it never panics, its value or its error is as said, and either way the object
-- that it leaves is good.
use solana_bpf_simulator.Prelude.Outcome.{Outcome, ok, err, panic}
use solana_bpf_simulator.Prelude.Method.{Method, ◌>>=◌}

module _ {S E : Type 0} (Good : S → Type 0) where
  unfoldable pub Post :
      {A : Type 0} → (A → Type 0) → (E → Type 0) → Outcome (E × S) (A × S) → Type 0
  Post P Q (ok (a, s)) = P a × Good s
  Post P Q (err (e, s)) = Q e × Good s
  Post P Q panic = ⊥

  pub bind-Post :
      {A B : Type 0} (P : A → Type 0) (Q' : E → Type 0) (R : B → Type 0) (Q : E → Type 0)
      (m : Method S E A) (f : A → Method S E B) (s : S)
      → Post P Q' (m s)
      → ((e : E) → Q' e → Q e)
      → ((a : A) (t : S) → P a → Good t → Post R Q (f a t))
      → Post R Q ((m >>= f) s)
  unfolding Post
  bind-Post {A} {B} P Q' R Q m f s h weaken k = go (m s) h
    where
      go :
          (o : Outcome (E × S) (A × S))
          → Post P Q' o
          → Post R Q (elim o [ ok (a, t) ↦ f a t | err x ↦ err x | panic ↦ panic ])
      go (ok (a, t)) i = k a t i.0 i.1
      go (err (e, t)) i = (weaken e i.0, i.1)
      go panic i = i

  pub imp-Post :
      {A : Type 0} (P R : A → Type 0) (Q' Q : E → Type 0) (o : Outcome (E × S) (A × S))
      → Post P Q' o
      → ((a : A) → P a → R a)
      → ((e : E) → Q' e → Q e)
      → Post R Q o
  unfolding Post
  imp-Post P R Q' Q (ok (a, t)) h k w = (k a h.0, h.1)
  imp-Post P R Q' Q (err (e, t)) h k w = (w e h.0, h.1)
  imp-Post P R Q' Q panic h k w = h

  -- For a claim about the whole outcome.
  pub bind_elim :
      {A B : Type 0} (P : A → Type 0) (Q : E → Type 0) (C : Outcome (E × S) (B × S) → Type 0)
      (m : Method S E A) (f : A → Method S E B) (s : S)
      → Post P Q (m s)
      → ((a : A) (t : S) → P a → Good t → C (f a t))
      → ((e : E) (t : S) → Q e → Good t → C (err (e, t)))
      → C ((m >>= f) s)
  unfolding Post
  bind_elim {A} {B} P Q C m f s h k w = go (m s) h
    where
      go :
          (o : Outcome (E × S) (A × S))
          → Post P Q o
          → C (elim o [ ok (a, t) ↦ f a t | err x ↦ err x | panic ↦ panic ])
      go (ok (a, t)) i = k a t i.0 i.1
      go (err (e, t)) i = w e t i.0 i.1
      go panic i = absurd i
