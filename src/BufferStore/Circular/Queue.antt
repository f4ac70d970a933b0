-- ===== src/BufferStore/Circular/Queue.antt =====
-- What the circular store's users see: a queue of bytes.
use wvstreams.Prelude.{◌+◌, ◌≤◌, some, ◌++◌, Bytes, length, ◌≡◌, refl, arith}
use wvstreams.BufferStore.Base.{put}
use wvstreams.BufferStore.Base.Puts.{put_lem}
use wvstreams.BufferStore.Circular.{
  WvCircularBufStore, free, optgettable, compact, normalize, store,
}
use wvstreams.BufferStore.Circular.Compact.{Begins, compact_lem}
use wvstreams.BufferStore.Circular.Contiguous.{front-ring}
use wvstreams.BufferStore.Circular.State.{IsValid, queue}
use wvstreams.BufferStore.Circular.Implements.{contract}

-- Where the bytes fit, put appends them to the queue.
pub put-queue :
    (s : WvCircularBufStore) (new : Bytes)
    → IsValid s
    → length new ≤ free s
    → (t : WvCircularBufStore) × (put store new s ≡ some t)
      × IsValid t
      × (queue t ≡ queue s ++ new)
      × (free t + length new ≡ free s)
put-queue s new v h =
    let a = put_lem store contract s new v h in
    (a.state, a.ran, a.valid, a.queue_after, a.less_free)

-- normalize keeps the queue, and all of it can be got at once.
normalized :
    (s : WvCircularBufStore)
    → IsValid s
    → Begins s.bytes (queue s) (compact s.bytes s.head s.totalused)
    → (t : WvCircularBufStore) × (normalize s ≡ some t)
      × IsValid t
      × (queue t ≡ queue s)
      × (optgettable t ≡ s.totalused)
unfolding normalize optgettable
normalized s v b = (
  record { bytes = b.result; head = 0; totalused = s.totalused; totalinit = s.totalused },
  rw b.ran refl,
  record {
    head_inside = omega (arith, v.head_inside, b.same_length);
    used_known = omega arith;
    init_fits = omega (arith, b.same_length, v.used_known, v.init_fits);
  },
  front-ring s.bytes b.result s.head s.totalused 0 (omega (arith, v.head_inside))
      (omega (arith, v.used_known, v.init_fits)) b.same_length b.front_bytes refl,
  ground (arith, b.same_length, v.used_known, v.init_fits),
)

pub normalize-queue :
    (s : WvCircularBufStore)
    → IsValid s
    → (t : WvCircularBufStore) × (normalize s ≡ some t)
      × IsValid t
      × (queue t ≡ queue s)
      × (optgettable t ≡ s.totalused)
normalize-queue s v = normalized s v (
    compact_lem s.bytes s.head s.totalused v.head_inside (omega (arith, v.used_known, v.init_fits)))
