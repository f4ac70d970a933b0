-- ===== src/BufferStore/Circular/Peek.antt =====
-- mutablepeek: the bytes that are unread and the ones that can be given back are read in place.
pub mod Moves
use wvstreams.Prelude.{
  ◌>>=◌, ℕ, zero, suc, ◌+◌, ◌-◌, ◌%◌, ◌≤◌, ◌<◌, true, false, Option, some, ◌++◌, Bytes, length,
  take, drop, leb, ◌==◌, ◌⊎◌, ◌≡◌, refl, sym, ap, ◌∙◌, arith, Bool-cases, inl, inr, take-take,
  drop-append_at,
}
use wvstreams.Prelude.Int.{ℤ, pos, negsuc}
use native.Mathlib.Nat.{mod-eq_of_lt, mod-lt, mod-add-mod}
use wvstreams.BufferStore.Circular.{
  WvCircularBufStore, xsize, ungettable, read, shifted, within_peek, compact, make_contiguous,
  ensurecontiguous, mutablepeek,
}
use wvstreams.BufferStore.Base.{peekable}
use wvstreams.BufferStore.Circular.Compact.{Begins, compact_lem}
use wvstreams.BufferStore.Circular.Ring.{ring, length-ring, ring_inside, ring_split, mod_turn}
use wvstreams.BufferStore.Circular.State.{IsValid, queue, oldest, memory, queue-memory}
use wvstreams.BufferStore.Circular.Contiguous.{front-ring}
pub use wvstreams.BufferStore.Circular.Peek.Moves.{place, Peeks, moved_read, moved, moved_shows}
use wvstreams.BufferStore.Circular.Peek.Moves.{compacted-Peeks, unmoved-Peeks}

pub peek_moves :
    (s : WvCircularBufStore) (offset : ℤ) (count : ℕ)
    → 1 ≤ xsize s
    → within_peek offset s ≡ true
    → 1 ≤ count
    → xsize s < shifted (s.head + xsize s) offset % xsize s + count
    → mutablepeek offset count s ≡ moved_read offset count s
unfolding mutablepeek ensurecontiguous
peek_moves s offset count n w h over =
    let nonempty : (xsize s == 0) ≡ false = ground (arith, n) in
    let some_asked : (count == 0) ≡ false = ground (arith, h) in
    let apart : leb (shifted (s.head + xsize s) offset % xsize s + count) (xsize s) ≡ false =
      ground (arith, over) in
    rw (some_asked, w, nonempty) (rw apart refl)

-- A peek shows the part of the memory that is asked for, and leaves the memory as it is.
pub mutablepeek_lem :
    (s : WvCircularBufStore) (offset : ℤ) (count : ℕ)
    → IsValid s
    → within_peek offset s ≡ true
    → 1 ≤ count
    → place offset s + count ≤ s.totalinit
    → Peeks s offset count (mutablepeek offset count s)
unfolding mutablepeek ensurecontiguous
mutablepeek_lem s offset count v w h fits =
    let nonempty : (xsize s == 0) ≡ false = ground (arith, v.head_inside) in
    let some_asked : (count == 0) ≡ false = ground (arith, h) in
    rw (some_asked, w, nonempty)
      (elim (Bool-cases (leb (shifted (s.head + xsize s) offset % xsize s + count) (xsize s))) [
        | inl i ↦ rw (i) (unmoved-Peeks s offset count v w fits (ground (arith, i)))
        | inr i ↦ rw (i) (
            compacted-Peeks s offset count v w h fits (
              compact_lem s.bytes (oldest s) s.totalinit
                (mod-lt (s.head + xsize s - ungettable s) {m = xsize s}
                  (omega (arith, v.head_inside)))
                v.init_fits))
      ])

peekable-within_peek :
    (s : WvCircularBufStore) (offset : ℤ)
    → 1 ≤ peekable s.totalused (ungettable s) offset
    → within_peek offset s ≡ true
unfolding peekable
peekable-within_peek s (pos zero) h = refl
peekable-within_peek s (pos (suc o)) h = ground (arith, h)
peekable-within_peek s (negsuc o) h = ground (arith, h)

peekable-place :
    (s : WvCircularBufStore) (offset : ℤ) (count : ℕ)
    → IsValid s
    → 1 ≤ count
    → count ≤ peekable s.totalused (ungettable s) offset
    → place offset s + count ≤ s.totalinit
unfolding peekable
peekable-place s (pos zero) count v k h = omega (arith, v.used_known, h)
peekable-place s (pos (suc o)) count v k h = omega (arith, v.used_known, h, k)
peekable-place s (negsuc o) count v k h = ground (arith, v.used_known, h, k)

-- So a peek at no more bytes than `peekable` tells shows them.
pub mutablepeek-peekable :
    (s : WvCircularBufStore) (offset : ℤ) (count : ℕ)
    → IsValid s
    → 1 ≤ count
    → count ≤ peekable s.totalused (ungettable s) offset
    → Peeks s offset count (mutablepeek offset count s)
mutablepeek-peekable s offset count v h k =
    mutablepeek_lem s offset count v (peekable-within_peek s offset (omega (arith, h, k))) h
      (peekable-place s offset count v h k)
