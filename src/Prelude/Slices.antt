-- ===== src/Prelude/Slices.antt =====
-- Parts of lists: what `take` and `drop` leave.
use Prim.Native.Nat.{ℕ, zero, suc, ◌+◌, ◌-◌, ◌≤◌}
use mathlib.Core.Path.{◌≡◌, refl, ap, sym}
use mathlib.Core.Option.{some}
use mathlib.Core.List.{List, [], ◌∷◌, ◌++◌}
use native.Mathlib.Omega.{arith}
use wvstreams.Prelude.Lists.{length, get_elem?, take, drop}

module _ {ℓ} {A : Type ℓ} where
  pub length-take : (n : ℕ) (v : List A) → n ≤ length v → length (take n v) ≡ n
  length-take zero v h = refl
  length-take (suc n) [] h = absurd (omega arith)
  length-take (suc n) (x ∷ v) h = ap suc (length-take n v (omega arith))

  pub length-drop : (n : ℕ) (v : List A) → length (drop n v) ≡ length v - n
  length-drop zero v = omega arith
  length-drop (suc n) [] = omega arith
  length-drop (suc n) (x ∷ v) = omega (arith, length-drop n v)

  pub take-length : (v : List A) → take (length v) v ≡ v
  take-length [] = refl
  take-length (x ∷ v) = ap (◌∷◌ x) (take-length v)

  pub drop-length : (v : List A) → drop (length v) v ≡ []
  drop-length [] = refl
  drop-length (x ∷ v) = drop-length v

  pub take-nil : (n : ℕ) → take {A = A} n [] ≡ []
  take-nil zero = refl
  take-nil (suc n) = refl

  pub drop-nil : (n : ℕ) → drop {A = A} n [] ≡ []
  drop-nil zero = refl
  drop-nil (suc n) = refl

  pub take-append : (n : ℕ) (v w : List A) → n ≤ length v → take n (v ++ w) ≡ take n v
  take-append zero v w h = refl
  take-append (suc n) [] w h = absurd (omega arith)
  take-append (suc n) (x ∷ v) w h = ap (◌∷◌ x) (take-append n v w (omega arith))

  pub drop-append : (n : ℕ) (v w : List A) → n ≤ length v → drop n (v ++ w) ≡ drop n v ++ w
  drop-append zero v w h = refl
  drop-append (suc n) [] w h = absurd (omega arith)
  drop-append (suc n) (x ∷ v) w h = drop-append n v w (omega arith)

  pub take-append_length : (v w : List A) → take (length v) (v ++ w) ≡ v
  take-append_length [] w = refl
  take-append_length (x ∷ v) w = ap (◌∷◌ x) (take-append_length v w)

  pub drop-append_length : (v w : List A) → drop (length v) (v ++ w) ≡ w
  drop-append_length [] w = refl
  drop-append_length (x ∷ v) w = drop-append_length v w

  pub drop-append_at : (n : ℕ) (v w : List A) → n ≡ length v → drop n (v ++ w) ≡ w
  drop-append_at n v w e = rw e (drop-append_length v w)

  pub take-append_more : (n : ℕ) (v w : List A) → take (length v + n) (v ++ w) ≡ v ++ take n w
  take-append_more n [] w = ap (λ k. take k w) (omega arith)
  take-append_more n (x ∷ v) w =
      let more : length (x ∷ v) + n ≡ suc (length v + n) = omega arith in
      rw more (ap (◌∷◌ x) (take-append_more n v w))

  pub drop-append_more : (n : ℕ) (v w : List A) → drop (length v + n) (v ++ w) ≡ drop n w
  drop-append_more n [] w = ap (λ k. drop k w) (omega arith)
  drop-append_more n (x ∷ v) w =
      let more : length (x ∷ v) + n ≡ suc (length v + n) = omega arith in
      rw more (drop-append_more n v w)

  pub take-take : (n m : ℕ) (v : List A) → n ≤ m → take n (take m v) ≡ take n v
  take-take zero m v h = refl
  take-take (suc n) zero v h = absurd (omega arith)
  take-take (suc n) (suc m) [] h = refl
  take-take (suc n) (suc m) (x ∷ v) h = ap (◌∷◌ x) (take-take n m v (omega arith))

  pub take_rest : (n : ℕ) (v : List A) → take n v ++ drop n v ≡ v
  take_rest zero v = refl
  take_rest (suc n) [] = refl
  take_rest (suc n) (x ∷ v) = ap (◌∷◌ x) (take_rest n v)

  pub take_plus : (n m : ℕ) (v : List A) → take (n + m) v ≡ take n v ++ take m (drop n v)
  take_plus zero m v = ap (λ k. take k v) (omega arith)
  take_plus (suc n) m [] =
      let more : suc n + m ≡ suc (n + m) = omega arith in rw more (sym (take-nil m))
  take_plus (suc n) m (x ∷ v) =
      let more : suc n + m ≡ suc (n + m) = omega arith in rw more (ap (◌∷◌ x) (take_plus n m v))

  pub drop-drop : (n m : ℕ) (v : List A) → drop n (drop m v) ≡ drop (m + n) v
  drop-drop n zero v = ap (λ k. drop k v) (omega arith)
  drop-drop n (suc m) [] = let more : suc m + n ≡ suc (m + n) = omega arith in rw more (drop-nil n)
  drop-drop n (suc m) (x ∷ v) =
      let more : suc m + n ≡ suc (m + n) = omega arith in rw more (drop-drop n m v)

  pub take-drop : (n m : ℕ) (v : List A) → take n (drop m v) ≡ drop m (take (m + n) v)
  take-drop n zero v = ap (λ k. take k v) (omega arith)
  take-drop n (suc m) [] = let more : suc m + n ≡ suc (m + n) = omega arith in rw more (take-nil n)
  take-drop n (suc m) (x ∷ v) =
      let more : suc m + n ≡ suc (m + n) = omega arith in rw more (take-drop n m v)

  pub get_elem?-append :
      (v : List A) (x : A) (w : List A) → get_elem? (v ++ x ∷ w) (length v) ≡ some x
  get_elem?-append [] x w = refl
  get_elem?-append (y ∷ v) x w = get_elem?-append v x w
