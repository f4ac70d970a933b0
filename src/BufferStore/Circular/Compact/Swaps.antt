-- ===== src/BufferStore/Circular/Compact/Swaps.antt =====
-- Case 4 of `compact`: the head and the tail of the region are exchanged in blocks.
use wvstreams.Prelude.{
  ℕ, zero, suc, ◌+◌, ◌-◌, ◌≤◌, ◌<◌, Option, some, [], ◌++◌, append_assoc, append-nil, Bytes, length,
  length-append, take, drop, leb, le→leb, ◌≡◌, refl, subst, ap, ◌∙◌, arith, Bool-cases, inl, inr,
  length-take, length-drop, take-append_length, drop-append_length, take_rest,
}
use wvstreams.BufferStore.Memory.{memswap}
use wvstreams.BufferStore.Memory.Regions.{memcpy_region, memmove_region, memswap_regions}
use wvstreams.BufferStore.Circular.{swap_rest, swap_loop}

-- an array of the same length that begins with the bytes given
pub record Begins (d front : Bytes) (o : Option Bytes) : Type 0 where
  pub result : Bytes
  pub ran : o ≡ some result
  pub same_length : length result ≡ length d
  pub front_bytes : take (length front) result ≡ front

swap_rest_run :
    (a t f h : Bytes)
    → length t < length h
    → swap_rest
        (a ++ (t ++ (f ++ h)))
        (length a)
        (length a + length t + length f)
        (length h)
        (length t)
      ≡ some (a ++ (h ++ (t ++ drop (length t) (drop (length h) (t ++ (f ++ h))))))
unfolding swap_rest
swap_rest_run a t f h lt =
    let w = t ++ (f ++ h) in
    let size : length w ≡ length t + (length f + length h) =
      length-append {0} t (f ++ h) ∙ ap (◌+◌ (length t)) (length-append f h) in
    let kept : take (length t) (drop (length a) (a ++ w)) ≡ t =
      rw (drop-append_length a w) (take-append_length t (f ++ h)) in
    let end : length a + length t + length f ≡ length (a ++ (t ++ f)) =
      omega (arith, length-append {0} a (t ++ f), length-append {0} t f) in
    let moved =
      memmove_region a w (a ++ (t ++ f)) h [] (simp (append_assoc, append-nil))
        (omega (arith, size)) in
    let copied =
      memcpy_region (a ++ h) (drop (length h) w) t
        (omega (arith, size, length-drop (length h) w)) in
    rw (kept, end, moved, ← length-append a h, ← append_assoc a h (drop (length h) w), copied)
      (ap some (append_assoc a h (t ++ drop (length t) (drop (length h) w))))

-- what is left of `t` is put behind `h`
swap_rest-Begins :
    (a t f h : Bytes)
    → length t < length h
    → Begins (a ++ (t ++ (f ++ h))) (a ++ (h ++ t)) (
        swap_rest
          (a ++ (t ++ (f ++ h)))
          (length a)
          (length a + length t + length f)
          (length h)
          (length t))
swap_rest-Begins a t f h lt =
    let w = t ++ (f ++ h) in
    let rest = drop (length t) (drop (length h) w) in
    record {
      result = a ++ (h ++ (t ++ rest));
      ran = swap_rest_run a t f h lt;
      same_length = omega (
        arith,
        lt,
        length-append {0} a w,
        length-append {0} t (f ++ h),
        length-append {0} f h,
        length-append {0} a (h ++ (t ++ rest)),
        length-append {0} h (t ++ rest),
        length-append {0} t rest,
        length-drop (length t) (drop (length h) w),
        length-drop (length h) w,
      );
      front_bytes =
          ap (take (length (a ++ (h ++ t)))) (simp append_assoc)
          ∙ take-append_length (a ++ (h ++ t)) rest;
    }

swap_loop_step :
    (rounds : ℕ) (d d' : Bytes) (start end headcount tailcount : ℕ)
    → headcount ≤ tailcount
    → memswap d start end headcount ≡ some d'
    → swap_loop (suc rounds) d start end headcount tailcount
      ≡ swap_loop rounds d' (start + headcount) end headcount (tailcount - headcount)
unfolding swap_loop
swap_loop_step rounds d d' start end headcount tailcount le e =
    rw (le→leb headcount tailcount le, swap_loop) (rw e refl)

-- the arguments of the next round
next_round :
    (rounds : ℕ) (a t1 t2 f h : Bytes)
    → length t1 ≡ length h
    → swap_loop
        (suc rounds)
        (a ++ ((t1 ++ t2) ++ (f ++ h)))
        (length a)
        (length a + length (t1 ++ t2) + length f)
        (length h)
        (length (t1 ++ t2))
      ≡ swap_loop rounds
          ((a ++ h) ++ (t2 ++ (f ++ t1)))
          (length (a ++ h))
          (length (a ++ h) + length t2 + length f)
          (length t1)
          (length t2)
next_round rounds a t1 t2 f h p =
    let size = length-append {0} t1 t2 in
    let end : length a + length (t1 ++ t2) + length f ≡ length a + length t1 + length (t2 ++ f) =
      omega (arith, size, length-append {0} t2 f) in
    let end' : length a + length (t1 ++ t2) + length f ≡ length (a ++ h) + length t2 + length f =
      omega (arith, size, p, length-append {0} a h) in
    let tail : length (t1 ++ t2) - length h ≡ length t2 = omega (arith, size, p) in
    let before : a ++ ((t1 ++ t2) ++ (f ++ h)) ≡ a ++ (t1 ++ ((t2 ++ f) ++ (h ++ []))) =
      simp (append_assoc, append-nil) in
    let after : a ++ (h ++ ((t2 ++ f) ++ (t1 ++ []))) ≡ (a ++ h) ++ (t2 ++ (f ++ t1)) =
      simp (append_assoc, append-nil) in
    let swapped : memswap (a ++ ((t1 ++ t2) ++ (f ++ h))) (length a)
          (length a + length (t1 ++ t2) + length f) (length h)
        ≡ some ((a ++ h) ++ (t2 ++ (f ++ t1))) =
      rw (before, end, ← p) (memswap_regions t1 h a (t2 ++ f) [] p ∙ ap some after) in
    swap_loop_step rounds _ _ (length a) (length a + length (t1 ++ t2) + length f) (length h)
      (length (t1 ++ t2)) (omega (arith, size, p)) swapped
    ∙ rw (tail, end', ← length-append a h, p) refl

round_Begins :
    (rounds : ℕ) (a t1 t2 f h : Bytes)
    → length t1 ≡ length h
    → Begins ((a ++ h) ++ (t2 ++ (f ++ t1))) ((a ++ h) ++ (t1 ++ t2)) (
        swap_loop rounds
          ((a ++ h) ++ (t2 ++ (f ++ t1)))
          (length (a ++ h))
          (length (a ++ h) + length t2 + length f)
          (length t1)
          (length t2))
    → Begins (a ++ ((t1 ++ t2) ++ (f ++ h))) (a ++ (h ++ (t1 ++ t2))) (
        swap_loop
          (suc rounds)
          (a ++ ((t1 ++ t2) ++ (f ++ h)))
          (length a)
          (length a + length (t1 ++ t2) + length f)
          (length h)
          (length (t1 ++ t2)))
round_Begins rounds a t1 t2 f h p b = record {
  result = b.result;
  ran = next_round rounds a t1 t2 f h p ∙ b.ran;
  same_length =
      b.same_length
      ∙ omega (
        arith,
        p,
        length-append {0} (a ++ h) (t2 ++ (f ++ t1)),
        length-append {0} a h,
        length-append {0} t2 (f ++ t1),
        length-append {0} f t1,
        length-append {0} a ((t1 ++ t2) ++ (f ++ h)),
        length-append {0} (t1 ++ t2) (f ++ h),
        length-append {0} t1 t2,
        length-append {0} f h,
      );
  front_bytes = rw (← append_assoc a h (t1 ++ t2)) b.front_bytes;
}

pub swap_loop-Begins :
    (rounds : ℕ) (a t f h : Bytes)
    → length t < rounds
    → 1 ≤ length h
    → Begins (a ++ (t ++ (f ++ h))) (a ++ (h ++ t)) (
        swap_loop rounds
          (a ++ (t ++ (f ++ h)))
          (length a)
          (length a + length t + length f)
          (length h)
          (length t))
unfolding swap_loop
swap_loop-Begins zero a t f h r p = absurd (omega arith)
swap_loop-Begins (suc rounds) a t f h r p = elim (Bool-cases (leb (length h) (length t))) [
  | inl e ↦
      let le : length h ≤ length t = ground arith in
      let same : length (take (length h) t) ≡ length h = length-take (length h) t le in
      let ih =
        swap_loop-Begins rounds (a ++ h) (drop (length h) t) f (take (length h) t)
          (omega (arith, length-drop (length h) t)) (omega (arith, same)) in
      subst
        (λ t'. Begins (a ++ (t' ++ (f ++ h))) (a ++ (h ++ t')) (
          swap_loop (suc rounds) (a ++ (t' ++ (f ++ h))) (length a)
            (length a + length t' + length f) (length h) (length t')))
        (take_rest (length h) t)
        (round_Begins rounds a (take (length h) t) (drop (length h) t) f h same ih)
  | inr e ↦ rw (e, swap_loop) (swap_rest-Begins a t f h (ground arith))
]
