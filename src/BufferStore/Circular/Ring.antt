-- ===== src/BufferStore/Circular/Ring.antt =====
-- The bytes of an array that begins anew at its end.
use wvstreams.Prelude.{
  ℕ, ◌+◌, ◌-◌, ◌%◌, ◌≤◌, ◌<◌, ◌++◌, Bytes, length, length-append, take, drop, leb, ◌≡◌, sym, ap,
  ◌∙◌, arith, Bool-cases, inl, inr, length-take, length-drop, take-append, drop-append, take_plus,
  drop-drop, take-append_more, drop-append_more,
}
use native.Mathlib.Nat.{mod-eq_of_lt, mod-eq-sub-mod}

-- `count` bytes from index `start` on
abbrev pub ring : Bytes → ℕ → ℕ → Bytes
ring d start count = take count (drop start d ++ d)

pub length-ring :
    (d : Bytes) (start count : ℕ)
    → start ≤ length d
    → count ≤ length d
    → length (ring d start count) ≡ count
length-ring d start count h k =
    length-take count (drop start d ++ d) (omega (arith, length-append {0} (drop start d) d, h, k))

-- a region that does not reach the end
pub ring_inside :
    (d : Bytes) (start count : ℕ)
    → start + count ≤ length d
    → ring d start count ≡ take count (drop start d)
ring_inside d start count h =
    take-append count (drop start d) d (omega (arith, length-drop start d, h))

-- one that goes on at the beginning
pub ring_wrapped :
    (d : Bytes) (start count : ℕ)
    → start ≤ length d
    → length d ≤ start + count
    → ring d start count ≡ drop start d ++ take (start + count - length d) d
ring_wrapped d start count h k =
    let split : count ≡ length (drop start d) + (start + count - length d) =
      omega (arith, length-drop start d, h, k) in
    ap (λ n. take n (drop start d ++ d)) split
    ∙ take-append_more (start + count - length d) (drop start d) d

-- the index behind some bytes
pub mod_wrapped : (a n : ℕ) → a < n + n → n ≤ a → a % n ≡ a - n
mod_wrapped a n h k = mod-eq-sub-mod k ∙ mod-eq_of_lt (omega (arith, h, k))

-- a turn around the array
pub mod_turn : (a n : ℕ) → 1 ≤ n → (a + n) % n ≡ a % n
mod_turn a n h = mod-eq-sub-mod (omega arith) ∙ ap (λ k. k % n) (omega arith)

-- The ring is read in two parts.
pub ring_split :
    (d : Bytes) (start n m : ℕ)
    → start < length d
    → n + m ≤ length d
    → ring d start (n + m) ≡ ring d start n ++ ring d ((start + n) % length d) m
ring_split d start n m h k =
    take_plus n m (drop start d ++ d)
    ∙ ap (◌++◌ (ring d start n)) (elim (Bool-cases (leb (length d) (start + n))) [
      | inl e ↦ over (ground arith)
      | inr e ↦ inside (ground arith)
    ])
  where
    inside :
        start + n < length d
        → take m (drop n (drop start d ++ d)) ≡ ring d ((start + n) % length d) m
    inside lt = rw (
      mod-eq_of_lt lt,
      drop-append n (drop start d) d (omega (arith, length-drop start d, lt)),
      drop-drop n start d,
    )

    over :
        length d ≤ start + n
        → take m (drop n (drop start d ++ d)) ≡ ring d ((start + n) % length d) m
    over le =
        let split : n ≡ length (drop start d) + (start + n - length d) =
          omega (arith, length-drop start d, h, le) in
        let rest : drop n (drop start d ++ d) ≡ drop (start + n - length d) d =
          ap (λ i. drop i (drop start d ++ d)) split
          ∙ drop-append_more (start + n - length d) (drop start d) d in
        let index : (start + n) % length d ≡ start + n - length d =
          mod_wrapped (start + n) (length d) (omega (arith, h, k)) le in
        rw (rest, index)
          (sym (
            take-append m (drop (start + n - length d) d) d
              (omega (arith, length-drop (start + n - length d) d, h, k, le))))
