-- ===== src/BufferStore/Circular/State.antt =====
-- What a circular buffer's state means: the queue of the bytes that are unread, and the memory, which has
-- the bytes before them that can be given back.
use wvstreams.Prelude.{
  ℕ, ◌+◌, ◌-◌, ◌%◌, ◌≤◌, ◌<◌, ◌++◌, Bytes, length, drop, ◌≡◌, sym, ap, ◌∙◌, arith, drop-append_at,
}
use native.Mathlib.Nat.{mod-eq_of_lt, mod-lt, mod-add-mod}
use wvstreams.BufferStore.Circular.{WvCircularBufStore, xsize, ungettable}
use wvstreams.BufferStore.Circular.Ring.{ring, length-ring, ring_split, mod_turn}

pub record IsValid (s : WvCircularBufStore) : Type 0 where
  pub head_inside : s.head < xsize s
  pub used_known : s.totalused ≤ s.totalinit
  pub init_fits : s.totalinit ≤ xsize s

abbrev pub queue : WvCircularBufStore → Bytes
queue s = ring s.bytes s.head s.totalused

-- the index of the oldest byte that can be given back
abbrev pub oldest : WvCircularBufStore → ℕ
oldest s = (s.head + xsize s - ungettable s) % xsize s

abbrev pub memory : WvCircularBufStore → Bytes
memory s = ring s.bytes (oldest s) s.totalinit

pub length-queue : (s : WvCircularBufStore) → IsValid s → length (queue s) ≡ s.totalused
length-queue s v =
    length-ring s.bytes s.head s.totalused (omega (arith, v.head_inside))
      (omega (arith, v.used_known, v.init_fits))

-- The queue is the memory behind the bytes that were read.
pub queue-memory : (s : WvCircularBufStore) → IsValid s → queue s ≡ drop (ungettable s) (memory s)
queue-memory s v =
    let start : oldest s < xsize s =
      mod-lt (s.head + xsize s - ungettable s) {m = xsize s} (omega (arith, v.head_inside)) in
    let back : (oldest s + ungettable s) % xsize s ≡ s.head =
      mod-add-mod (s.head + xsize s - ungettable s) (xsize s) (ungettable s)
      ∙ ap (λ n. n % xsize s) (omega (arith, v.init_fits))
      ∙ mod_turn s.head (xsize s) (omega (arith, v.head_inside))
      ∙ mod-eq_of_lt v.head_inside in
    let parts : memory s ≡ ring s.bytes (oldest s) (ungettable s) ++ queue s =
      ap (ring s.bytes (oldest s)) (omega (arith, v.used_known))
      ∙ ring_split s.bytes (oldest s) (ungettable s) s.totalused start
          (omega (arith, v.used_known, v.init_fits))
      ∙ ap (λ n. ring s.bytes (oldest s) (ungettable s) ++ ring s.bytes n s.totalused) back in
    sym (
      rw parts (
        drop-append_at (ungettable s) (ring s.bytes (oldest s) (ungettable s)) (queue s) (
          sym (
            length-ring s.bytes (oldest s) (ungettable s) (omega (arith, start))
              (omega (arith, v.init_fits))))))
