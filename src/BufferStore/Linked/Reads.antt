-- ===== src/BufferStore/Linked/Reads.antt =====
-- get and unget of the linked store, on the queue of all its bytes.
use wvstreams.Prelude.{
  ℕ, zero, suc, ◌+◌, ◌-◌, ◌≤◌, true, false, Option, some, List, [], ◌∷◌, ◌++◌, Bytes, length, take,
  drop, ltb, ◌==◌, ◌≡◌, refl, sym, subst, ap, ◌∙◌, arith, Bool-cases, inl, inr, take-append,
  drop-append, length-drop,
}
use wvstreams.BufferStore.Base.Merges.Refills.{length_zero}
use wvstreams.BufferStore.Circular
use wvstreams.BufferStore.Circular.{WvCircularBufStore}
use wvstreams.BufferStore.Circular.State.{queue, length-queue}
use wvstreams.BufferStore.Circular.State as State
use wvstreams.BufferStore.Circular.Reads.{Takes, Leads, get_lem}
use wvstreams.BufferStore.Linked.{WvLinkedBufferStore, Sizes, coalesce, first_used, get, unget}
use wvstreams.BufferStore.Linked.Coalesce.{queues, AllValid, next_valid}
use wvstreams.BufferStore.Linked.Join.{Joined, coalesce_lem}

pub record IsValid (s : WvLinkedBufferStore) : Type 0 where
  pub stores : AllValid s.list
  pub counted : s.totalused ≡ length (queues s.list)

-- the first store that is not empty
pub record FirstUsed (list : List WvCircularBufStore)
    (o : Option (WvCircularBufStore × List WvCircularBufStore × ℕ)) : Type 0 where
  pub buf : WvCircularBufStore
  pub rest : List WvCircularBufStore
  pub bound : ℕ
  pub ran : o ≡ some (buf, rest, bound)
  pub buf_valid : State.IsValid buf
  pub rest_valid : AllValid rest
  pub same_bytes : queue buf ++ queues rest ≡ queues list

first_used_skip :
    (buf : WvCircularBufStore) (rest : List WvCircularBufStore) (m : ℕ)
    → buf.totalused ≡ 0
    → first_used (buf ∷ rest) m ≡ first_used rest 0
unfolding first_used
first_used_skip buf rest m h =
    let none_used : (buf.totalused == 0) ≡ true = ground (arith, h) in
    rw (none_used, first_used) refl

first_used_here :
    (buf : WvCircularBufStore) (rest : List WvCircularBufStore) (m : ℕ)
    → 1 ≤ buf.totalused
    → first_used (buf ∷ rest) m ≡ some (buf, rest, m)
unfolding first_used
first_used_here buf rest m h =
    let some_used : (buf.totalused == 0) ≡ false = ground (arith, h) in
    rw (some_used, first_used) refl

first_used_lem :
    (list : List WvCircularBufStore) (m : ℕ)
    → AllValid list
    → 1 ≤ length (queues list)
    → FirstUsed list (first_used list m)
first_used_lem [] m v h = absurd (omega (arith, h))
first_used_lem (buf ∷ rest) m (next_valid b r) h = elim (Bool-cases (buf.totalused == 0)) [
  | inl z ↦
      let nothing : buf.totalused ≡ 0 = ground (arith, z) in
      let same : queue buf ++ queues rest ≡ queues rest =
        ap (λ q. q ++ queues rest) (length_zero (queue buf) (length-queue buf b ∙ nothing)) in
      let f = first_used_lem rest 0 r (omega (arith, h, ap length same)) in
      record {
        buf = f.buf;
        rest = f.rest;
        bound = f.bound;
        ran = first_used_skip buf rest m nothing ∙ f.ran;
        buf_valid = f.buf_valid;
        rest_valid = f.rest_valid;
        same_bytes = f.same_bytes ∙ sym same;
      }
  | inr z ↦ record {
    buf = buf;
    rest = rest;
    bound = m;
    ran = first_used_here buf rest m (ground (arith, z));
    buf_valid = b;
    rest_valid = r;
    same_bytes = refl;
  }
]

-- an operation without a result that leads to a valid state with a given queue
pub record Restores (o : Option WvLinkedBufferStore) (q : Bytes) : Type 0 where
  pub state : WvLinkedBufferStore
  pub ran : o ≡ some state
  pub valid : IsValid state
  pub bytes_after : queues state.list ≡ q

-- the front of the queue comes back and the rest stays; unget takes that back
pub record Gets (s : WvLinkedBufferStore) (count : ℕ) (o : Option (Bytes × WvLinkedBufferStore))
    : Type 0 where
  pub state : WvLinkedBufferStore
  pub ran : o ≡ some (take count (queues s.list), state)
  pub valid : IsValid state
  pub rest : queues state.list ≡ drop count (queues s.list)
  pub undone : Restores (unget count state) (queues s.list)

get_nothing : (sizes : Sizes) (s : WvLinkedBufferStore) → IsValid s → Gets s 0 (get sizes 0 s)
unfolding get unget
get_nothing sizes s v = record {
  state = s;
  ran = refl;
  valid = v;
  rest = refl;
  undone = record { state = s; ran = refl; valid = v; bytes_after = refl };
}

-- unget behind a get of one or more bytes
unget_after :
    (buf : WvCircularBufStore) (rest : List WvCircularBufStore) (used bound count : ℕ) (q : Bytes)
    → 1 ≤ count
    → AllValid rest
    → used + count ≡ length (q ++ queues rest)
    → Leads (Circular.unget count buf) q
    → Restores
        (unget count
          (record { list = buf ∷ rest; totalused = used; maxungettable = bound + count }))
        (q ++ queues rest)
unfolding unget
unget_after buf rest used bound count q h r size u =
    let some_asked : (count == 0) ≡ false = ground (arith, h) in
    let known : ltb (bound + count) count ≡ false = ground arith in
    record {
      state = record {
        list = u.state ∷ rest;
        totalused = used + count;
        maxungettable = bound + count - count;
      };
      ran = rw (some_asked, known, u.ran) refl;
      valid = record { stores = next_valid u.valid r; counted = rw u.queue_after size };
      bytes_after = ap (λ p. p ++ queues rest) u.queue_after;
    }

got :
    (sizes : Sizes) (s : WvLinkedBufferStore) (count : ℕ)
    → IsValid s
    → 1 ≤ count
    → count ≤ s.totalused
    → (f : FirstUsed s.list (first_used s.list s.maxungettable))
    → (j : Joined count (queue f.buf ++ queues f.rest) (
        coalesce sizes
          (record {
            list = f.buf ∷ f.rest;
            totalused = s.totalused - count;
            maxungettable = f.bound;
          })
          count
          f.buf
          f.rest))
    → Takes j.first count (Circular.get count j.first)
    → Gets s count (get sizes count s)
unfolding get
got sizes s count v h k f j g =
    let some_asked : (count == 0) ≡ false = ground (arith, h) in
    let enough : ltb s.totalused count ≡ false = ground (arith, k) in
    let whole : queue j.first ++ queues j.rest ≡ queues s.list = j.same_bytes ∙ f.same_bytes in
    let inside : count ≤ length (queue j.first) =
      omega (arith, j.enough, length-queue j.first j.first_valid) in
    let rest : queue g.state ++ queues j.rest ≡ drop count (queues s.list) =
      ap (λ q. q ++ queues j.rest) g.rest
      ∙ sym (drop-append count (queue j.first) (queues j.rest) inside)
      ∙ ap (drop count) whole in
    let shown : take count (queue j.first) ≡ take count (queues s.list) =
      sym (take-append count (queue j.first) (queues j.rest) inside) ∙ ap (take count) whole in
    record {
      state = record {
        list = g.state ∷ j.rest;
        totalused = s.totalused - count;
        maxungettable = f.bound + count;
      };
      ran =
          rw (some_asked, enough, f.ran, j.ran, g.ran)
            (ap
              (λ b. some (
                b,
                record {
                  list = g.state ∷ j.rest;
                  totalused = s.totalused - count;
                  maxungettable = f.bound + count;
                },
              ))
              shown);
      valid = record {
        stores = next_valid g.valid j.rest_valid;
        counted = omega (arith, ap length rest, length-drop count (queues s.list), v.counted);
      };
      rest = rest;
      undone =
          subst
            (Restores (
              unget count (record {
                list = g.state ∷ j.rest;
                totalused = s.totalused - count;
                maxungettable = f.bound + count;
              })))
            whole
            (unget_after g.state j.rest (s.totalused - count) f.bound count (queue j.first) h
              j.rest_valid (omega (arith, ap length whole, v.counted, k)) g.undone);
    }

get_some :
    (sizes : Sizes) (s : WvLinkedBufferStore) (count : ℕ)
    → 1 ≤ sizes.granularity
    → IsValid s
    → 1 ≤ count
    → count ≤ s.totalused
    → Gets s count (get sizes count s)
get_some sizes s count g v h k =
    let f = first_used_lem s.list s.maxungettable v.stores (omega (arith, h, k, v.counted)) in
    let j =
      coalesce_lem sizes
        (record { list = f.buf ∷ f.rest; totalused = s.totalused - count; maxungettable = f.bound })
        count f.buf f.rest g h f.buf_valid f.rest_valid
        (omega (arith, k, v.counted, ap length f.same_bytes)) in
    got sizes s count v h k f j (get_lem j.first count j.first_valid j.enough)

-- get on a linked store takes the front of the bytes of all its stores.
pub linked_get_lem :
    (sizes : Sizes) (s : WvLinkedBufferStore) (count : ℕ)
    → 1 ≤ sizes.granularity
    → IsValid s
    → count ≤ s.totalused
    → Gets s count (get sizes count s)
linked_get_lem sizes s zero g v h = get_nothing sizes s v
linked_get_lem sizes s (suc count) g v h = get_some sizes s (suc count) g v (omega arith) h
