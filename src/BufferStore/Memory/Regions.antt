-- ===== src/BufferStore/Memory/Regions.antt =====
-- What the operations do to an array that is cut into regions.
use wvstreams.Prelude.{
  ℕ, suc, ◌+◌, ◌≤◌, true, some, [], ◌∷◌, ◌++◌, append_assoc, Bytes, length, length-append,
  get_elem?, get_elem?-append, take, drop, leb, le→leb, ◌≡◌, refl, sym, subst, ap, ◌∙◌, arith,
  take-append_length, drop-append_length, drop-append_more,
}
use wvstreams.BufferStore.Memory.{memmove, memcpy, set_at, memswap}

set_at-region : (a : Bytes) (x v : ℕ) (r : Bytes) → set_at (a ++ x ∷ r) (length a) v ≡ a ++ v ∷ r
set_at-region [] x v r = refl
set_at-region (y ∷ a) x v r = ap (◌∷◌ y) (set_at-region a x v r)

-- bytes copied over what follows
pub memcpy_region :
    (a w new : Bytes)
    → length new ≤ length w
    → memcpy (a ++ w) (length a) new ≡ some (a ++ (new ++ drop (length new) w))
unfolding memcpy
memcpy_region a w new h =
    let fits : leb (length a + length new) (length (a ++ w)) ≡ true =
      le→leb _ _ (omega (arith, h, length-append {0} a w)) in
    rw (fits, take-append_length a w, drop-append_more (length new) a w)

-- a region moved to an earlier or later place
pub memmove_region :
    (a w b new s : Bytes)
    → a ++ w ≡ b ++ (new ++ s)
    → length new ≤ length w
    → memmove (a ++ w) (length a) (length b) (length new) ≡ some (a ++ (new ++ drop (length new) w))
unfolding memmove
memmove_region a w b new s e h =
    let size = length-append {0} a w in
    let size' = length-append {0} b (new ++ s) in
    let fits : leb (length a + length new) (length (a ++ w)) ≡ true =
      le→leb _ _ (omega (arith, h, size)) in
    let fits' : leb (length b + length new) (length (a ++ w)) ≡ true =
      le→leb _ _ (omega (arith, ap length e, size', length-append {0} new s)) in
    let source : take (length new) (drop (length b) (a ++ w)) ≡ new =
      rw (e, drop-append_length b (new ++ s)) (take-append_length new s) in
    rw (fits, fits', source, take-append_length a w, drop-append_more (length new) a w)

-- the same with the places given in another form
pub memmove_cut :
    (d a w b new s : Bytes) (target source count : ℕ)
    → d ≡ a ++ w
    → d ≡ b ++ (new ++ s)
    → target ≡ length a
    → source ≡ length b
    → count ≡ length new
    → count ≤ length w
    → memmove d target source count ≡ some (a ++ (new ++ drop count w))
memmove_cut d a w b new s target source count p q t u c le =
    rw (t, u, c, p) (memmove_region a w b new s (sym p ∙ q) (subst (λ n. n ≤ length w) c le))

-- the second of two regions, behind everything before it
regroup :
    (a m : Bytes) (v y : ℕ) (xs r : Bytes)
    → a ++ (v ∷ (xs ++ (m ++ (y ∷ r)))) ≡ (a ++ (v ∷ (xs ++ m))) ++ (y ∷ r)
regroup a m v y xs r = simp append_assoc

regroup_length :
    (a m : Bytes) (v : ℕ) (xs : Bytes)
    → length (a ++ (v ∷ (xs ++ m))) ≡ length a + length (v ∷ xs) + length m
regroup_length a m v xs = omega (arith, length-append {0} a (v ∷ (xs ++ m)), length-append {0} xs m)

-- One step of the loop: the first bytes of two regions are exchanged.
swap_step :
    (a m : Bytes) (x y : ℕ) (xs ys z : Bytes)
    → set_at
        (set_at (a ++ (x ∷ (xs ++ (m ++ (y ∷ (ys ++ z)))))) (length a) y)
        (length a + length (x ∷ xs) + length m)
        x
      ≡ (a ++ y ∷ []) ++ (xs ++ ((m ++ x ∷ []) ++ (ys ++ z)))
swap_step a m x y xs ys z =
    rw
      (
        set_at-region a x y (xs ++ (m ++ (y ∷ (ys ++ z)))),
        regroup a m y y xs (ys ++ z),
        ← regroup_length a m y xs,
        set_at-region (a ++ (y ∷ (xs ++ m))) y x (ys ++ z),
      )
      (simp append_assoc)

second :
    (a m : Bytes) (x y : ℕ) (xs r : Bytes)
    → get_elem? (a ++ (x ∷ (xs ++ (m ++ (y ∷ r))))) (length a + length (x ∷ xs) + length m) ≡ some y
second a m x y xs r =
    rw (regroup a m x y xs r, ← regroup_length a m x xs)
      (get_elem?-append (a ++ (x ∷ (xs ++ m))) y r)

memswap_step :
    (d : Bytes) (t s n x y : ℕ)
    → get_elem? d t ≡ some x
    → get_elem? d s ≡ some y
    → memswap d t s (suc n) ≡ memswap (set_at (set_at d t y) s x) (t + 1) (s + 1) n
unfolding memswap
memswap_step d t s n x y p q = rw (p, q)

pub memswap_regions :
    (x y a m z : Bytes)
    → length x ≡ length y
    → memswap (a ++ (x ++ (m ++ (y ++ z)))) (length a) (length a + length x + length m) (length x)
      ≡ some (a ++ (y ++ (m ++ (x ++ z))))
memswap_regions [] [] a m z h = unfold memswap in refl
memswap_regions [] (y ∷ ys) a m z h = absurd (omega (arith, h))
memswap_regions (x ∷ xs) [] a m z h = absurd (omega (arith, h))
memswap_regions (x ∷ xs) (y ∷ ys) a m z h =
    let next_target : length a + 1 ≡ length (a ++ y ∷ []) = sym (length-append {0} a (y ∷ [])) in
    let next_source : length a + length (x ∷ xs) + length m + 1
        ≡ length (a ++ y ∷ []) + length xs + length (m ++ x ∷ []) =
      omega (arith, length-append {0} a (y ∷ []), length-append {0} m (x ∷ [])) in
    memswap_step (a ++ (x ∷ (xs ++ (m ++ (y ∷ (ys ++ z)))))) (length a)
      (length a + length (x ∷ xs) + length m) (length xs) x y
      (get_elem?-append a x (xs ++ (m ++ (y ∷ (ys ++ z))))) (second a m x y xs (ys ++ z))
    ∙ rw (swap_step a m x y xs ys z, next_target, next_source)
        (memswap_regions xs ys (a ++ y ∷ []) (m ++ x ∷ []) z (omega (arith, h))
          ∙ ap some (simp append_assoc))
