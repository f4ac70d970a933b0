-- ===== src/Encoder/Loop.antt =====
-- The loop that the `_encode` methods share: `while (in.used() != 0)`, one character at a time.
use wvstreams.Prelude.{
  ℕ, Bool, true, false, ◌&&◌, ◌||◌, [], ◌∷◌, ◌++◌, append_assoc, Bytes, ◌≡◌, ◌⊎◌, inl, inr, refl,
  ap, ◌∙◌, arith,
}
use wvstreams.Encoder.{Outcome}

-- the body of the loop: it goes on with a state, an output and whether it called setfinished, or
-- it calls seterror and returns false
pub data Step (S : Type 0) : Type 0 where
  next : S → Bytes → Bool → Step S
  bad : S → Step S

module _ {S : Type 0} where
  abbrev pub done : S → Outcome S
  done s = record { state = s; rest = []; out = []; success = true; errored = false; ended = false }

  abbrev pub failed : S → Bytes → Outcome S
  failed s rest = record {
    state = s;
    rest = rest;
    out = [];
    success = false;
    errored = true;
    ended = false;
  }

  abbrev pub emit : Bytes → Bool → Outcome S → Outcome S
  emit bytes ended o = record o { out = bytes ++ o.out; ended = ended || o.ended }

  -- the test behind the loop, reached only when the loop did not return
  abbrev pub require : Bool → Outcome S → Outcome S
  require b o = record o { success = o.success && b }

  unfoldable pub loop : (S → ℕ → Step S) → S → Bytes → Outcome S
  loop step s [] = done s
  loop step s (c ∷ cs) = elim (step s c) [
    | next s' bytes ended ↦ emit bytes ended (loop step s' cs)
    | bad s' ↦ failed s' cs
  ]

  -- the outcome of a run that may be followed by another
  abbrev pub and_then : Outcome S → (S → Outcome S) → Bytes → Outcome S
  and_then o k more = elim o.success [
    | true ↦ emit o.out o.ended (k o.state)
    | false ↦ record o { rest = o.rest ++ more }
  ]

  and_then-emit :
      (o : Outcome S) (b : Bytes) (f : Bool) (k : S → Outcome S) (more : Bytes)
      → emit b f (and_then o k more) ≡ and_then (emit b f o) k more
  and_then-emit o b f k more = ground (arith, append_assoc b o.out (k o.state).out)

  Step-cases :
      (r : Step S)
      → ((s : S) × (bytes : Bytes) × (ended : Bool) × (r ≡ next s bytes ended))
        ⊎ ((s : S) × (r ≡ bad s))
  Step-cases (next s bytes ended) = inl (s, bytes, ended, refl)
  Step-cases (bad s) = inr (s, refl)

  pub loop-append :
      (step : S → ℕ → Step S) (s : S) (xs ys : Bytes)
      → loop step s (xs ++ ys) ≡ and_then (loop step s xs) (λ t. loop step t ys) ys
  unfolding loop
  loop-append step s [] ys = refl
  loop-append step s (x ∷ xs) ys = elim (Step-cases (step s x)) [
    | inl (s', bytes, ended, e) ↦
        rw (e, loop)
          (ap (emit bytes ended) (loop-append step s' xs ys)
            ∙ and_then-emit (loop step s' xs) bytes ended (λ t. loop step t ys) ys)
    | inr (s', e) ↦ rw (e, loop)
  ]

  -- A character that the loop body refuses in every state makes every run over it fail.
  pub loop_refuses :
      (step : S → ℕ → Step S) (xs : Bytes) (s : S) (c : ℕ) (ys : Bytes)
      → ((s : S) → (t : S) × (step s c ≡ bad t))
      → (loop step s (xs ++ c ∷ ys)).success ≡ false
  unfolding loop
  loop_refuses step [] s c ys h = rw ((h s).1, loop)
  loop_refuses step (x ∷ xs) s c ys h = elim (Step-cases (step s x)) [
    | inl (s', bytes, ended, e) ↦ rw (e, loop) (loop_refuses step xs s' c ys h)
    | inr (s', e) ↦ rw (e, loop)
  ]
