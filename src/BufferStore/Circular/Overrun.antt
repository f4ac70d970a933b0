-- ===== src/BufferStore/Circular/Overrun.antt =====
-- What follows when all bytes were read and the history is the whole array: a peek at the history can put
-- `head` behind the array's last byte.
use wvstreams.Prelude.{
  ℕ, ◌+◌, ◌-◌, ◌%◌, ◌≤◌, true, false, some, [], ◌∷◌, length, take, take-length, drop, length-drop,
  ltb, leb, ◌==◌, ◌≡◌, ◌≢◌, refl, sym, ap, ◌∙◌, arith,
}
use wvstreams.Prelude.Int.{negsuc}
use native.Mathlib.Nat.{mod-eq_of_lt, mod_self}
use wvstreams.BufferStore.Circular.{
  WvCircularBufStore, xsize, ungettable, optgettable, within_peek, ensurecontiguous, alloc, write,
  mutablepeek, store,
}
use wvstreams.BufferStore.Base.{fastput}
use wvstreams.BufferStore.Memory.{memcpy}
use wvstreams.BufferStore.Circular.Ring.{length-ring, mod_turn}
use wvstreams.BufferStore.Circular.Compact.{compact_lem}
use wvstreams.BufferStore.Circular.Peek.{moved, moved_shows, peek_moves}
use wvstreams.BufferStore.Circular.State.{IsValid, oldest, memory}

abbrev at_start : WvCircularBufStore → ℕ → WvCircularBufStore
at_start t v = record {
  bytes = v ∷ drop 1 t.bytes;
  head = t.head;
  totalused = t.totalused + 1;
  totalinit = t.totalused + 1;
}

-- With no bytes in the buffer and `head` behind the array, a byte is put at the start.
put_at_start :
    (t : WvCircularBufStore) (v : ℕ)
    → t.head ≡ xsize t
    → t.totalused ≡ 0
    → 1 ≤ xsize t
    → fastput store (v ∷ []) t ≡ some (at_start t v)
unfolding fastput alloc write ensurecontiguous memcpy
put_at_start t v at_end e n =
    let enough : ltb (xsize t - t.totalused) 1 ≡ false = ground (arith, e, n) in
    let nonempty : (xsize t == 0) ≡ false = ground (arith, n) in
    let index : (t.head + xsize t + t.totalused) % xsize t ≡ 0 =
      ap (λ k. k % xsize t) (omega (arith, at_end, e))
      ∙ mod_turn (xsize t) (xsize t) n
      ∙ mod_self (xsize t) in
    let fits : leb 1 (length t.bytes) ≡ true = ground (arith, n) in
    rw (enough, nonempty, index) (rw fits (rw fits refl))

stuck_at_start :
    (t : WvCircularBufStore) (v : ℕ)
    → t.head ≡ xsize t
    → 1 ≤ xsize t
    → optgettable (at_start t v) ≡ 0
unfolding optgettable
stuck_at_start t v at_end n =
    let size : length (v ∷ drop 1 t.bytes) ≡ t.head =
      omega (arith, at_end, n, length-drop 1 t.bytes) in
    rw size (ground arith)

-- A byte put behind such a peek is in the buffer, and yet the buffer says that no byte can be got.
pub peek_stuck :
    (s : WvCircularBufStore) (v : ℕ)
    → IsValid s
    → s.head ≢ 0
    → s.totalused ≡ 0
    → s.totalinit ≡ xsize s
    → (t : WvCircularBufStore) × (t' : WvCircularBufStore) × (mutablepeek
          (negsuc (xsize s - 1))
          (xsize s)
          s
        ≡ some (memory s, t))
      × (fastput store (v ∷ []) t ≡ some t')
      × (t'.totalused ≡ 1)
      × (optgettable t' ≡ 0)
peek_stuck s v i h e f =
    let start : oldest s ≡ s.head =
      ap (λ n. n % xsize s) (omega (arith, e, f)) ∙ mod-eq_of_lt i.head_inside in
    let b =
      compact_lem s.bytes (oldest s) s.totalinit (omega (arith, start, i.head_inside))
        i.init_fits in
    let at_end : s.totalinit - s.totalused ≡ xsize (moved s b) =
      omega (arith, e, f, b.same_length) in
    let within : within_peek (negsuc (xsize s - 1)) s ≡ true =
      ground (arith, e, f, i.head_inside) in
    let first : (s.head + xsize s - (xsize s - 1 + 1)) % xsize s ≡ s.head =
      ap (λ n. n % xsize s) (omega (arith, i.head_inside)) ∙ mod-eq_of_lt i.head_inside in
    let from_start : ungettable s - (xsize s - 1 + 1) ≡ 0 = omega (arith, e, f, i.head_inside) in
    let whole : take (xsize s) (drop (ungettable s - (xsize s - 1 + 1)) (memory s)) ≡ memory s =
      ap (λ n. take (xsize s) (drop n (memory s))) from_start
      ∙ ap (λ n. take n (memory s))
          (sym f
            ∙ sym (
                length-ring s.bytes (oldest s) s.totalinit (omega (arith, start, i.head_inside))
                  i.init_fits))
      ∙ take-length (memory s) in
    let nonempty : 1 ≤ xsize (moved s b) = omega (arith, i.head_inside, b.same_length) in
    (
      moved s b,
      at_start (moved s b) v,
      peek_moves s (negsuc (xsize s - 1)) (xsize s) (omega (arith, i.head_inside)) within
            (omega (arith, i.head_inside)) (omega (arith, first, h, i.head_inside))
          ∙ moved_shows s i b (negsuc (xsize s - 1)) (xsize s) within (omega (arith, i.head_inside))
              (omega (arith, e, f, i.head_inside))
          ∙ ap (λ q. some (q, moved s b)) whole,
      put_at_start (moved s b) v at_end e nonempty,
      ap (λ n. n + 1) e,
      stuck_at_start (moved s b) v at_end nonempty,
    )
