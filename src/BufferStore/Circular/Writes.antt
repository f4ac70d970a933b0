-- ===== src/BufferStore/Circular/Writes.antt =====
-- alloc, fastput, put and unalloc, on the queue.
use wvstreams.Prelude.{
  ℕ, ◌+◌, ◌-◌, ◌%◌, ◌≤◌, ◌<◌, ◌++◌, append_assoc, Bytes, length, length-append, take, drop, leb,
  ◌≡◌, sym, ap, ◌∙◌, arith, Bool-cases, inl, inr, take-append_length, take-append, take-append_more,
  drop-append_more, drop-append_at, drop-append_length, take-take, take-drop, length-take,
  length-drop, drop-drop,
}
use native.Mathlib.Nat.{mod-eq_of_lt}
use wvstreams.BufferStore.Circular.Ring.{
  ring, length-ring, ring_inside, ring_wrapped, ring_split, mod_wrapped,
}

-- bytes that memcpy has written over others
abbrev pub over : Bytes → ℕ → Bytes → Bytes
over d first new = take first d ++ (new ++ drop (first + length new) d)

module _ (d new : Bytes) (first : ℕ) (fits : first + length new ≤ length d) where
  pub length-over : length (over d first new) ≡ length d
  length-over = omega (
    arith,
    fits,
    length-take first d,
    length-drop (first + length new) d,
    length-append {0} (take first d) (new ++ drop (first + length new) d),
    length-append {0} new (drop (first + length new) d),
  )

  take-over : (k : ℕ) → k ≤ first → take k (over d first new) ≡ take k d
  take-over k h =
      take-append k (take first d) (new ++ drop (first + length new) d)
        (omega (arith, h, fits, length-take first d))
      ∙ take-take k first d h

  drop-over : (k : ℕ) → first + length new ≤ k → drop k (over d first new) ≡ drop k d
  drop-over k h =
      let reached : ℕ = first + length new in
      let split : k ≡ length (take first d ++ new) + (k - reached) =
        omega (arith, h, fits, length-append {0} (take first d) new, length-take first d) in
      rw (← append_assoc (take first d) new (drop reached d)) (
        ap (λ n. drop n ((take first d ++ new) ++ drop reached d)) split
        ∙ drop-append_more (k - reached) (take first d ++ new) (drop reached d)
        ∙ drop-drop (k - reached) reached d
        ∙ ap (λ n. drop n d) (omega (arith, h)))

  -- the bytes before the place written, on either side of the array's end
  ring-over_inside :
      (head count : ℕ)
      → first ≡ head + count
      → ring (over d first new) head count ≡ ring d head count
  ring-over_inside head count place =
      ring_inside (over d first new) head count (omega (arith, fits, length-over, place))
      ∙ take-drop count head (over d first new)
      ∙ ap (drop head) (take-over (head + count) (omega (arith, place)))
      ∙ sym (take-drop count head d)
      ∙ sym (ring_inside d head count (omega (arith, fits, place)))

  ring-over_wrapped :
      (head count : ℕ)
      → head < length d
      → first + length d ≡ head + count
      → count + length new ≤ length d
      → ring (over d first new) head count ≡ ring d head count
  ring-over_wrapped head count h place room =
      ring_wrapped (over d first new) head count (omega (arith, length-over, h))
        (omega (arith, length-over, place))
      ∙ rw
          (
            length-over,
            drop-over head (omega (arith, place, room)),
            take-over (head + count - length d) (omega (arith, place)),
          )
          (sym (ring_wrapped d head count (omega (arith, h)) (omega (arith, place))))

  ring-over :
      (head count : ℕ)
      → head < length d
      → first ≡ (head + count) % length d
      → count + length new ≤ length d
      → ring (over d first new) head count ≡ ring d head count
  ring-over head count h place room = elim (Bool-cases (leb (length d) (head + count))) [
    | inl e ↦
        let around : (head + count) % length d ≡ head + count - length d =
          mod_wrapped (head + count) (length d) (omega (arith, h, room)) (ground (arith, e)) in
        ring-over_wrapped head count h (ground (arith, e, around, place)) room
    | inr e ↦
        let lt : head + count < length d = ground (arith, e) in
        let same : (head + count) % length d ≡ head + count = mod-eq_of_lt lt in
        ring-over_inside head count (place ∙ same)
  ]

-- bytes written over the start of the last `n` bytes of a ring
module _ (d new : Bytes) (first head count n : ℕ) (h : head < length d)
    (place : first ≡ (head + count) % length d) (fits : first + n ≤ length d)
    (some_new : length new ≤ n) (whole : count + n ≤ length d) where
  last-over : ring (over d first new) first n ≡ new ++ drop (length new) (ring d first n)
  last-over =
      let size = length-over d new first (omega (arith, fits, some_new)) in
      ring_inside (over d first new) first n (omega (arith, size, fits))
      ∙ ap (take n) (
          drop-append_at first (take first d) (new ++ drop (first + length new) d)
            (sym (length-take first d (omega (arith, fits)))))
      ∙ ap (λ k. take k (new ++ drop (first + length new) d)) (omega (arith, some_new))
      ∙ take-append_more (n - length new) new (drop (first + length new) d)
      ∙ ap (◌++◌ new) (
          ap (take (n - length new)) (sym (drop-drop (length new) first d))
          ∙ take-drop (n - length new) (length new) (drop first d)
          ∙ ap (λ k. drop (length new) (take k (drop first d))) (omega (arith, some_new))
          ∙ ap (drop (length new)) (sym (ring_inside d first n fits)))

  pub ring-over_last :
      (front junk : Bytes)
      → ring d head (count + n) ≡ front ++ junk
      → length junk ≡ n
      → ring (over d first new) head (count + n) ≡ front ++ (new ++ drop (length new) junk)
  ring-over_last front junk e size_junk =
      let size = length-over d new first (omega (arith, fits, some_new)) in
      let parts : ring d head count ++ ring d first n ≡ front ++ junk =
        ap (λ k. ring d head count ++ ring d k n) place
        ∙ sym (ring_split d head count n h whole)
        ∙ e in
      let front_size : length front ≡ count = omega (
        arith,
        ap length e,
        length-append {0} front junk,
        size_junk,
        length-ring d head (count + n) (omega (arith, h)) whole,
      ) in
      let ring_size : length (ring d head count) ≡ length front =
        length-ring d head count (omega (arith, h)) (omega (arith, whole)) ∙ sym front_size in
      let first_part : ring d head count ≡ front =
        sym (take-append_length (ring d head count) (ring d first n))
        ∙ ap (take (length (ring d head count))) parts
        ∙ ap (λ k. take k (front ++ junk)) ring_size
        ∙ take-append_length front junk in
      let last_part : ring d first n ≡ junk =
        sym (drop-append_length (ring d head count) (ring d first n))
        ∙ ap (drop (length (ring d head count))) parts
        ∙ ap (λ k. drop k (front ++ junk)) ring_size
        ∙ drop-append_length front junk in
      ring_split (over d first new) head count n (omega (arith, size, h))
        (omega (arith, size, whole))
      ∙ rw (size, ← place)
          (ap (λ q. q ++ ring (over d first new) first n)
              (ring-over d new first (omega (arith, fits, some_new)) head count h place
                  (omega (arith, whole, some_new))
                ∙ first_part)
            ∙ ap (◌++◌ front) (last-over ∙ ap (λ r. new ++ drop (length new) r) last_part))
