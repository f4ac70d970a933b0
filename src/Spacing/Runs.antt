-- ===== src/Spacing/Runs.antt =====
-- Texts from which undupe has taken the repetitions.
use wvstreams.Prelude.{ℕ, Bool, true, false, [], ◌∷◌, Bytes, ◌==◌, ◌≡◌, refl, Bool-cases, inl, inr}
use wvstreams.Spacing.{undupe_loop, undupe}

undupe_keep :
    (c x : ℕ) (s : Bytes) → (x == c) ≡ true → undupe_loop (x ∷ s) c false ≡ x ∷ undupe_loop s c true
unfolding undupe_loop
undupe_keep c x s e = rw e refl

undupe_skip :
    (c x : ℕ) (s : Bytes) → (x == c) ≡ true → undupe_loop (x ∷ s) c true ≡ undupe_loop s c true
unfolding undupe_loop
undupe_skip c x s e = rw e refl

undupe_other :
    (c x : ℕ) (s : Bytes) (last : Bool)
    → (x == c) ≡ false
    → undupe_loop (x ∷ s) c last ≡ x ∷ undupe_loop s c false
unfolding undupe_loop
undupe_other c x s last e = rw e refl

undupe_nothing : (c : ℕ) (last : Bool) → undupe_loop [] c last ≡ []
unfolding undupe_loop
undupe_nothing c last = refl

undupe_loop_twice :
    (c : ℕ) (s : Bytes) (last : Bool)
    → undupe_loop (undupe_loop s c last) c last ≡ undupe_loop s c last
undupe_loop_twice c [] last = rw (undupe_nothing c last) (undupe_nothing c last)
undupe_loop_twice c (x ∷ s) true = elim (Bool-cases (x == c)) [
  | inl e ↦ rw (undupe_skip c x s e) (undupe_loop_twice c s true)
  | inr n ↦
      rw
        (
          undupe_other c x s true n,
          undupe_other c x (undupe_loop s c false) true n,
          undupe_loop_twice c s false,
        )
        refl
]
undupe_loop_twice c (x ∷ s) false = elim (Bool-cases (x == c)) [
  | inl e ↦
      rw (undupe_keep c x s e, undupe_keep c x (undupe_loop s c true) e, undupe_loop_twice c s true)
        refl
  | inr n ↦
      rw
        (
          undupe_other c x s false n,
          undupe_other c x (undupe_loop s c false) false n,
          undupe_loop_twice c s false,
        )
        refl
]

-- What is left has no repetition to take away.
undupe_twice : (s : Bytes) (c : ℕ) → undupe (undupe s c) c ≡ undupe s c
unfolding undupe
undupe_twice s c = undupe_loop_twice c s false
