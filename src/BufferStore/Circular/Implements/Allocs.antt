-- ===== src/BufferStore/Circular/Implements/Allocs.antt =====
-- alloc on the circular store: the tail of the queue that it makes room for.
use wvstreams.Prelude.{
  ℕ, ◌+◌, ◌-◌, ◌%◌, ◌≤◌, false, some, ◌++◌, Bytes, length, ltb, ◌≡◌, refl, ap, ◌∙◌, arith,
}
use wvstreams.Prelude.Int.{pos}
use native.Mathlib.Nat.{mod-lt}
use wvstreams.BufferStore.Circular.{
  WvCircularBufStore, xsize, free, optgettable, optallocable, alloc, ensurecontiguous,
}
use wvstreams.BufferStore.Circular.Ring.{ring, length-ring, ring_split}
use wvstreams.BufferStore.Circular.State.{IsValid, queue}
use wvstreams.BufferStore.Circular.Contiguous.{Reached, ensurecontiguous-Reached}

-- The last `n` bytes stand in one piece that begins at index `first`.
pub record Tail (s : WvCircularBufStore) (first n : ℕ) : Type 0 where
  pub part : n ≤ s.totalused
  pub place : 1 ≤ n → first ≡ (s.head + (s.totalused - n)) % xsize s
  pub fits : first + n ≤ xsize s

pub gettable_bound : (s : WvCircularBufStore) → IsValid s → optgettable s ≤ s.totalused
unfolding optgettable
gettable_bound s v = ground arith

pub gettable_some : (s : WvCircularBufStore) → IsValid s → 1 ≤ s.totalused → 1 ≤ optgettable s
unfolding optgettable
gettable_some s v h = ground (arith, v.head_inside, h)

pub allocable_bound : (s : WvCircularBufStore) → IsValid s → optallocable s ≤ free s
unfolding optallocable
allocable_bound s v = ground (arith, v.head_inside)

pub allocable_some : (s : WvCircularBufStore) → IsValid s → 1 ≤ free s → 1 ≤ optallocable s
unfolding optallocable
allocable_some s v h = ground (arith, v.head_inside, h)

-- what is allocated behind the queue
pub record Allocs (s : WvCircularBufStore) (count : ℕ) : Type 0 where
  pub first : ℕ
  pub state : WvCircularBufStore
  pub junk : Bytes
  pub ran : alloc count s ≡ some (first, state)
  pub valid : IsValid state
  pub longer : queue state ≡ queue s ++ junk
  pub size : length junk ≡ count
  pub tail : Tail state first count
  pub less : free state + count ≡ free s

abbrev without_history : WvCircularBufStore → WvCircularBufStore
without_history s = record s { totalinit = s.totalused }

abbrev extended : ℕ → WvCircularBufStore → WvCircularBufStore
extended count t = record t { totalused = t.totalused + count; totalinit = t.totalinit + count }

alloc-Reached :
    (s : WvCircularBufStore) (count : ℕ)
    → IsValid s
    → count ≤ free s
    → Reached
        (without_history s)
        s.totalused
        count
        (ensurecontiguous (pos s.totalused) count false (without_history s))
    → Allocs s count
unfolding alloc
alloc-Reached s count v h r =
    let enough : ltb (xsize s - s.totalused) count ≡ false = ground (arith, h) in
    let used_fits : s.totalused ≤ xsize s = omega (arith, v.used_known, v.init_fits) in
    let room : r.state.totalused + count ≤ xsize r.state =
      omega (arith, h, r.same_size, r.same_used, used_fits) in
    let inside = r.valid.head_inside in
    record {
      first = r.first;
      state = extended count r.state;
      junk = ring r.state.bytes ((r.state.head + r.state.totalused) % xsize r.state) count;
      ran = rw (enough, r.ran) refl;
      valid = record {
        head_inside = inside;
        used_known = omega (arith, r.valid.used_known);
        init_fits = omega (arith, room, r.init_bound, r.same_used);
      };
      longer =
          ring_split r.state.bytes r.state.head r.state.totalused count inside room
          ∙ ap
              (λ q.
                q ++ ring r.state.bytes ((r.state.head + r.state.totalused) % xsize r.state) count)
              r.same_queue;
      size =
          length-ring r.state.bytes ((r.state.head + r.state.totalused) % xsize r.state) count
            (omega (
              arith,
              mod-lt (r.state.head + r.state.totalused) {m = xsize r.state} (omega (arith, inside)),
            ))
            (omega (arith, room));
      tail = record {
        part = omega arith;
        place = λ _.
            r.first_place
            ∙ ap (λ n. (r.state.head + n) % xsize r.state) (omega (arith, r.same_used));
        fits = r.contiguous;
      };
      less = omega (arith, r.same_size, r.same_used, h, room);
    }

pub alloc_lem : (s : WvCircularBufStore) (count : ℕ) → IsValid s → count ≤ free s → Allocs s count
alloc_lem s count v h = alloc-Reached s count v h (
    ensurecontiguous-Reached (without_history s) s.totalused count
      (record {
        head_inside = v.head_inside;
        used_known = omega arith;
        init_fits = omega (arith, v.used_known, v.init_fits);
      })
      (omega (arith, h, v.used_known, v.init_fits)))
