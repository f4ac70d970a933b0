-- ===== src/BufferStore/Circular/Compact.antt =====
-- `compact` brings a region to the start of the array, on each of its four ways.
pub mod Swaps
use wvstreams.Prelude.{
  ℕ, zero, suc, ◌+◌, ◌-◌, ◌≤◌, ◌<◌, Option, some, [], ◌++◌, append_assoc, append-nil, Bytes, length,
  length-append, take, drop, leb, le→leb, ◌==◌, ◌≡◌, refl, sym, subst, ap, ◌∙◌, arith, Bool-cases,
  inl, inr, length-take, length-drop, take-append_length, drop-append_length, drop-append_at,
  drop-append, take_rest, drop-drop,
}
use wvstreams.BufferStore.Memory.{memmove, memswap}
use wvstreams.BufferStore.Memory.Regions.{
  memcpy_region, memmove_region, memmove_cut, memswap_regions,
}
use wvstreams.BufferStore.Circular.{swap_rest, swap_loop, compact_apart, compact}
use wvstreams.BufferStore.Circular.Ring.{ring, ring_inside, ring_wrapped}
pub use wvstreams.BufferStore.Circular.Compact.Swaps.{Begins}
use wvstreams.BufferStore.Circular.Compact.Swaps.{swap_loop-Begins}

-- Case 3: the tail goes behind the place of the head, and the head goes to its place.
module _ (t f h : Bytes) (le : length h ≤ length f) where
  abbrev gap_bytes : Bytes
  gap_bytes = drop (length h + length t) (t ++ f)

  size : length (t ++ (f ++ h)) ≡ length t + (length f + length h)
  size = length-append {0} t (f ++ h) ∙ ap (◌+◌ (length t)) (length-append f h)

  front : length (take (length h) (t ++ (f ++ h))) ≡ length h
  front = length-take (length h) (t ++ (f ++ h)) (omega (arith, size, le))

  behind : drop (length t) (drop (length h) (t ++ (f ++ h))) ≡ gap_bytes ++ h
  behind =
      drop-drop (length t) (length h) (t ++ (f ++ h))
      ∙ rw (← append_assoc t f h)
          (drop-append (length h + length t) (t ++ f) h (omega (arith, length-append {0} t f, le)))

  tail_moved :
      memmove (t ++ (f ++ h)) (length h) 0 (length t)
      ≡ some (take (length h) (t ++ (f ++ h)) ++ (t ++ (gap_bytes ++ h)))
  tail_moved =
      memmove_cut (t ++ (f ++ h)) (take (length h) (t ++ (f ++ h)))
        (drop (length h) (t ++ (f ++ h))) [] t (f ++ h) (length h) 0 (length t)
        (sym (take_rest (length h) (t ++ (f ++ h)))) refl (sym front) refl refl
        (omega (arith, size, le, length-drop (length h) (t ++ (f ++ h))))
      ∙ ap (λ r. some (take (length h) (t ++ (f ++ h)) ++ (t ++ r))) behind

  gap : length (take (length h) (t ++ (f ++ h)) ++ (t ++ gap_bytes)) ≡ length t + length f
  gap = omega (
    arith,
    le,
    front,
    length-append {0} (take (length h) (t ++ (f ++ h))) (t ++ gap_bytes),
    length-append {0} t gap_bytes,
    length-drop (length h + length t) (t ++ f),
    length-append {0} t f,
  )

  head_moved :
      memmove
        (take (length h) (t ++ (f ++ h)) ++ (t ++ (gap_bytes ++ h)))
        0
        (length t + length f)
        (length h)
      ≡ some (h ++ (t ++ (gap_bytes ++ h)))
  head_moved =
      memmove_cut (take (length h) (t ++ (f ++ h)) ++ (t ++ (gap_bytes ++ h))) []
        (take (length h) (t ++ (f ++ h)) ++ (t ++ (gap_bytes ++ h)))
        (take (length h) (t ++ (f ++ h)) ++ (t ++ gap_bytes)) h [] 0 (length t + length f)
        (length h) refl (simp (append_assoc, append-nil)) refl (sym gap) refl
        (omega (
          arith,
          front,
          length-append {0} (take (length h) (t ++ (f ++ h))) (t ++ (gap_bytes ++ h)),
        ))
      ∙ ap (λ r. some (h ++ r))
          (drop-append_at (length h) (take (length h) (t ++ (f ++ h))) (t ++ (gap_bytes ++ h))
            (sym front))

  same_size : length (h ++ (t ++ (gap_bytes ++ h))) ≡ length (t ++ (f ++ h))
  same_size = omega (
    arith,
    le,
    size,
    length-append {0} h (t ++ (gap_bytes ++ h)),
    length-append {0} t (gap_bytes ++ h),
    length-append {0} gap_bytes h,
    length-drop (length h + length t) (t ++ f),
    length-append {0} t f,
  )

compact_apart-Begins :
    (t f h : Bytes)
    → 1 ≤ length h
    → Begins
        (t ++ (f ++ h))
        (h ++ t)
        (compact_apart (t ++ (f ++ h)) (length t + length f) (length h) (length t) (length f))
unfolding compact_apart
compact_apart-Begins t f h p = elim (Bool-cases (leb (length h) (length f))) [
  | inl e ↦
      let le : length h ≤ length f = ground arith in
      record {
        result = h ++ (t ++ (gap_bytes t f h le ++ h));
        ran = rw (e, tail_moved t f h le) (head_moved t f h le);
        same_length = same_size t f h le;
        front_bytes =
            rw (← append_assoc h t (gap_bytes t f h le ++ h))
              (take-append_length (h ++ t) (gap_bytes t f h le ++ h));
      }
  | inr e ↦
      let none_before : 0 + length t + length f ≡ length t + length f = omega arith in
      rw (e, ← none_before) (swap_loop-Begins (length t + 1) [] t f h (omega arith) p)
]

-- the same with the lengths given in another form
at_cut :
    (d t f h result : Bytes) (head headcount tailcount freecount : ℕ)
    → d ≡ t ++ (f ++ h)
    → head ≡ length t + length f
    → headcount ≡ length h
    → tailcount ≡ length t
    → freecount ≡ length f
    → result ≡ h ++ t
    → 1 ≤ length h
    → Begins d result (compact_apart d head headcount tailcount freecount)
at_cut d t f h result head headcount tailcount freecount e a b c g r p =
    rw (e, a, b, c, g, r) (compact_apart-Begins t f h p)

inside-Begins :
    (d : Bytes) (head count : ℕ)
    → head + count ≤ length d
    → Begins d (ring d head count) (memmove d 0 head count)
inside-Begins d head count h =
    let size : length (take count (drop head d)) ≡ count =
      length-take count (drop head d) (omega (arith, h, length-drop head d)) in
    rw (ring_inside d head count h) (record {
      result = take count (drop head d) ++ drop count d;
      ran =
          memmove_cut d [] d (take head d) (take count (drop head d)) (drop count (drop head d)) 0
            head count refl (rw (take_rest count (drop head d)) (sym (take_rest head d))) refl
            (sym (length-take head d (omega (arith, h)))) (sym size) (omega (arith, h));
      same_length = omega (
        arith,
        h,
        size,
        length-append {0} (take count (drop head d)) (drop count d),
        length-drop count d,
      );
      front_bytes = take-append_length (take count (drop head d)) (drop count d);
    })

wrapped-Begins :
    (d : Bytes) (head count : ℕ)
    → head < length d
    → count ≤ length d
    → length d < head + count
    → Begins d
        (ring d head count)
        (compact_apart d head (length d - head) (count - (length d - head)) (length d - count))
wrapped-Begins d head count h k over =
    let tail : ℕ = head + count - length d in
    let rest : drop (head - tail) (drop tail d) ≡ drop head d =
      drop-drop (head - tail) tail d ∙ ap (λ n. drop n d) (omega (arith, h, k, over)) in
    let middle : take (head - tail) (drop tail d) ++ drop head d ≡ drop tail d =
      ap (◌++◌ (take (head - tail) (drop tail d))) (sym rest)
      ∙ take_rest (head - tail) (drop tail d) in
    let t_size : length (take tail d) ≡ tail = length-take tail d (omega (arith, h, k, over)) in
    let f_size : length (take (head - tail) (drop tail d)) ≡ head - tail =
      length-take (head - tail) (drop tail d) (omega (arith, length-drop tail d, h, k, over)) in
    let h_size = length-drop head d in
    at_cut d (take tail d) (take (head - tail) (drop tail d)) (drop head d) (ring d head count) head
      (length d - head) (count - (length d - head)) (length d - count)
      (sym (rw middle (take_rest tail d))) (omega (arith, t_size, f_size, h, k, over)) (sym h_size)
      (omega (arith, t_size, h, k, over)) (omega (arith, f_size, h, k, over))
      (ring_wrapped d head count (omega (arith, h)) (omega (arith, over)))
      (omega (arith, h_size, h))

-- Every case of `compact`: the region's bytes stand at the start afterwards.
pub compact_lem :
    (d : Bytes) (head count : ℕ)
    → head < length d
    → count ≤ length d
    → Begins d (ring d head count) (compact d head count)
unfolding compact
compact_lem d head count h k = elim (Bool-cases (count == 0)) [
  | inl e ↦
      let nothing : count ≡ 0 = ground arith in
      rw (e, nothing) (record { result = d; ran = refl; same_length = refl; front_bytes = refl })
  | inr e ↦ elim (Bool-cases (leb (head + count) (length d))) [
    | inl i ↦ rw (e, i) (inside-Begins d head count (ground arith))
    | inr i ↦ rw (e, i) (wrapped-Begins d head count h k (ground arith))
  ]
]
