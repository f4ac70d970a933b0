-- ===== src/BufferStore/Circular/Implements.antt =====
-- The circular store keeps the contract of a store.
pub mod Allocs
use wvstreams.Prelude.{
  ℕ, ◌+◌, ◌-◌, ◌%◌, ◌≤◌, false, some, [], ◌∷◌, ◌++◌, Bytes, length, length-append, take, drop, ltb,
  ◌≡◌, refl, sym, ap, ◌∙◌, arith, le→leb, take_rest, take-take, take-append_length,
}
use wvstreams.Prelude.Int.{pos}
use native.Mathlib.Nat.{mod-eq_of_lt, mod-add-mod, mod-lt}
use wvstreams.BufferStore.Base.Laws.{Contract}
use wvstreams.BufferStore.Memory.{memcpy}
use wvstreams.BufferStore.Circular.{
  WvCircularBufStore, xsize, free, optgettable, optallocable, alloc, write, unalloc,
  ensurecontiguous, store,
}
use wvstreams.BufferStore.Circular.Ring.{ring, length-ring, ring_split}
use wvstreams.BufferStore.Circular.State.{IsValid, queue, length-queue}
use wvstreams.BufferStore.Circular.Contiguous.{Reached, ensurecontiguous-Reached}
use wvstreams.BufferStore.Circular.Reads.{get_lem}
use wvstreams.BufferStore.Circular.Writes.{over, length-over, ring-over_last}
pub use wvstreams.BufferStore.Circular.Implements.Allocs.{
  Tail, gettable_bound, gettable_some, allocable_bound, allocable_some,
}
use wvstreams.BufferStore.Circular.Implements.Allocs.{alloc_lem}

-- what is written over the start of the tail
pub record Writes (s : WvCircularBufStore) (first : ℕ) (front junk new : Bytes) : Type 0 where
  pub state : WvCircularBufStore
  pub ran : write first new s ≡ some state
  pub valid : IsValid state
  pub written : queue state ≡ front ++ (new ++ drop (length new) junk)
  pub tail : Tail state (first + length new) (length junk - length new)
  pub same_free : free state ≡ free s

write_over :
    (s : WvCircularBufStore) (first : ℕ) (new : Bytes)
    → first + length new ≤ xsize s
    → write first new s ≡ some (record s { bytes = over s.bytes first new })
unfolding write memcpy
write_over s first new h = rw (le→leb (first + length new) (length s.bytes) h) refl

tail_moves :
    (first n k head used size : ℕ)
    → first ≡ (head + (used - n)) % size
    → first + n ≤ size
    → n ≤ used
    → k ≤ n
    → 1 ≤ n - k
    → first + k ≡ (head + (used - (n - k))) % size
tail_moves first n k head used size e f h l m = sym (
    ap (λ i. i % size) (omega (arith, h, l))
    ∙ sym (mod-add-mod (head + (used - n)) size k)
    ∙ ap (λ i. (i + k) % size) (sym e)
    ∙ mod-eq_of_lt (omega (arith, f, l, m)))

write_nothing :
    (s : WvCircularBufStore) (first : ℕ) (front junk : Bytes)
    → IsValid s
    → Tail s first (length junk)
    → queue s ≡ front ++ junk
    → Writes s first front junk []
write_nothing s first front junk v t e =
    let same : over s.bytes first [] ≡ s.bytes =
      ap (λ n. take first s.bytes ++ drop n s.bytes) (omega arith) ∙ take_rest first s.bytes in
    record {
      state = s;
      ran =
          write_over s first [] (omega (arith, t.fits))
          ∙ ap (λ d. some (record s { bytes = d })) same;
      valid = v;
      written = e;
      tail = record {
        part = omega (arith, t.part);
        place = λ h.
            let first_zero : first + 0 ≡ first = omega arith in
            let size_zero : length junk - 0 ≡ length junk = omega arith in
            rw (first_zero, size_zero) (t.place (omega (arith, h)));
        fits = omega (arith, t.fits);
      };
      same_free = refl;
    }

write_some :
    (s : WvCircularBufStore) (first : ℕ) (front junk new : Bytes)
    → IsValid s
    → Tail s first (length junk)
    → queue s ≡ front ++ junk
    → length new ≤ length junk
    → 1 ≤ length new
    → Writes s first front junk new
write_some s first front junk new v t e h k =
    let fits : first + length new ≤ xsize s = omega (arith, t.fits, h) in
    let size = length-over s.bytes new first fits in
    let count : ℕ = s.totalused - length junk in
    let whole : s.totalused ≡ count + length junk = omega (arith, t.part) in
    let place : first ≡ (s.head + count) % xsize s = t.place (omega (arith, h, k)) in
    record {
      state = record s { bytes = over s.bytes first new };
      ran = write_over s first new fits;
      valid = record {
        head_inside = omega (arith, size, v.head_inside);
        used_known = v.used_known;
        init_fits = omega (arith, size, v.init_fits);
      };
      written =
          ap (ring (over s.bytes first new) s.head) whole
          ∙ ring-over_last s.bytes new first s.head count (length junk) v.head_inside place t.fits h
              (omega (arith, whole, v.used_known, v.init_fits)) front junk
              (ap (ring s.bytes s.head) (sym whole) ∙ e) refl;
      tail = record {
        part = omega (arith, t.part);
        place = λ l. rw size (
            tail_moves first (length junk) (length new) s.head s.totalused (xsize s) place t.fits
              t.part h l);
        fits = omega (arith, size, t.fits, h);
      };
      same_free = omega (arith, size);
    }

pub write_lem :
    (s : WvCircularBufStore) (first : ℕ) (front junk new : Bytes)
    → IsValid s
    → Tail s first (length junk)
    → queue s ≡ front ++ junk
    → length new ≤ length junk
    → Writes s first front junk new
write_lem s first front junk [] v t e h = write_nothing s first front junk v t e
write_lem s first front junk (x ∷ new) v t e h =
    write_some s first front junk (x ∷ new) v t e h (omega arith)

pub unalloc_lem :
    (s : WvCircularBufStore) (front junk : Bytes)
    → IsValid s
    → queue s ≡ front ++ junk
    → (t : WvCircularBufStore) × (unalloc (length junk) s ≡ some t) × IsValid t × (queue t ≡ front)
unfolding unalloc
unalloc_lem s front junk v e =
    let whole : s.totalused ≡ length front + length junk =
      sym (length-queue s v) ∙ ap length e ∙ length-append front junk in
    let known : ltb s.totalused (length junk) ≡ false = ground (arith, whole) in
    (
      record s { totalused = s.totalused - length junk; totalinit = s.totalinit - length junk },
      rw known refl,
      record {
        head_inside = v.head_inside;
        used_known = omega (arith, v.used_known);
        init_fits = omega (arith, v.init_fits);
      },
      sym (
            take-take (s.totalused - length junk) s.totalused (drop s.head s.bytes ++ s.bytes)
              (omega arith))
          ∙ ap (take (s.totalused - length junk)) e
          ∙ ap (λ n. take n (front ++ junk)) (omega (arith, whole))
          ∙ take-append_length front junk,
    )

abbrev pub contract : Contract store
contract = record {
  IsValid = IsValid;
  queue = queue;
  Tail = Tail;
  length_queue = length-queue;
  gettable_bound = gettable_bound;
  gettable_some = gettable_some;
  allocable_bound = allocable_bound;
  allocable_some = allocable_some;
  get_law = λ s count v h. let g = get_lem s count v h in (g.state, g.ran, g.valid, g.rest);
  alloc_law = λ s count v h.
      let a = alloc_lem s count v h in
      (a.first, a.state, a.junk, a.ran, a.valid, a.longer, a.size, a.tail, a.less);
  write_law = λ s first front junk new v t e h.
      let w = write_lem s first front junk new v t e h in
      (w.state, w.ran, w.valid, w.written, w.tail, w.same_free);
  unalloc_law = unalloc_lem;
}
