-- ===== src/BufferStore/Circular/Reads.antt =====
-- get and unget, on the queue.
use wvstreams.Prelude.{
  ℕ, ◌+◌, ◌-◌, ◌%◌, ◌≤◌, ◌<◌, false, Option, none, some, ◌++◌, Bytes, take, drop, ltb, leb, ◌==◌,
  ◌≡◌, refl, sym, subst, ap, ◌∙◌, arith, Bool-cases, inl, inr, lt→ltb, drop-append_at, take-take,
}
use wvstreams.Prelude.Int.{pos}
use native.Mathlib.Nat.{mod-eq_of_lt, mod-lt, mod-add-mod}
use wvstreams.BufferStore.Circular.{
  ungettable, WvCircularBufStore, xsize, read, get, unget, ensurecontiguous,
}
use wvstreams.BufferStore.Circular.Ring.{
  ring, length-ring, ring_inside, ring_split, mod_turn, mod_wrapped,
}
use wvstreams.BufferStore.Circular.State.{IsValid, queue}
use wvstreams.BufferStore.Circular.Contiguous.{Reached, ensurecontiguous-Reached}

-- an operation without a result that leads to a valid state with a given queue
pub record Leads (o : Option WvCircularBufStore) (q : Bytes) : Type 0 where
  pub state : WvCircularBufStore
  pub ran : o ≡ some state
  pub valid : IsValid state
  pub queue_after : queue state ≡ q

-- A queue in two parts, of which the first can be read at one index.
two_parts :
    (s : WvCircularBufStore) (count : ℕ)
    → IsValid s
    → count ≤ s.totalused
    → queue s
      ≡ ring s.bytes s.head count ++ ring s.bytes ((s.head + count) % xsize s) (s.totalused - count)
two_parts s count v h =
    ap (ring s.bytes s.head) (omega (arith, h))
    ∙ ring_split s.bytes s.head count (s.totalused - count) v.head_inside
        (omega (arith, h, v.used_known, v.init_fits))

-- where the head goes when bytes are read
abbrev pub advanced : ℕ → WvCircularBufStore → WvCircularBufStore
advanced count s = record s { head = (s.head + count) % xsize s; totalused = s.totalused - count }

advanced-IsValid : (s : WvCircularBufStore) (count : ℕ) → IsValid s → IsValid (advanced count s)
advanced-IsValid s count v = record {
  head_inside = mod-lt (s.head + count) {m = xsize s} (omega (arith, v.head_inside));
  used_known = omega (arith, v.used_known);
  init_fits = v.init_fits;
}

queue-advanced :
    (s : WvCircularBufStore) (count : ℕ)
    → IsValid s
    → count ≤ s.totalused
    → queue (advanced count s) ≡ drop count (queue s)
queue-advanced s count v h = sym (
    rw (two_parts s count v h) (
      drop-append_at count (ring s.bytes s.head count)
        (ring s.bytes ((s.head + count) % xsize s) (s.totalused - count))
        (sym (
          length-ring s.bytes s.head count (omega (arith, v.head_inside))
            (omega (arith, h, v.used_known, v.init_fits))))))

-- The head comes back.
turned_back : (h n size : ℕ) → h < size → n ≤ size → ((h + n) % size + size - n) % size ≡ h
turned_back h n size p q = elim (Bool-cases (leb size (h + n))) [
  | inl e ↦
      let le : size ≤ h + n = ground (arith, e) in
      let around : (h + n) % size ≡ h + n - size =
        mod_wrapped (h + n) size (omega (arith, p, q)) le in
      ap (λ k. k % size) (omega (arith, around, le, q)) ∙ mod-eq_of_lt p
  | inr e ↦
      let lt : h + n < size = ground (arith, e) in
      let inside : (h + n) % size ≡ h + n = mod-eq_of_lt lt in
      ap (λ k. k % size) (omega (arith, inside))
      ∙ mod_turn h size (omega (arith, p))
      ∙ mod-eq_of_lt p
]

unget-advanced :
    (s : WvCircularBufStore) (count : ℕ)
    → IsValid s
    → count ≤ s.totalused
    → Leads (unget count (advanced count s)) (queue s)
unfolding unget
unget-advanced s count v h =
    let known : ltb (s.totalinit - (s.totalused - count)) count ≡ false =
      ground (arith, h, v.used_known) in
    let nonempty : (xsize s == 0) ≡ false = ground (arith, v.head_inside) in
    let back : ((s.head + count) % xsize s + xsize s - count) % xsize s ≡ s.head =
      turned_back s.head count (xsize s) v.head_inside
        (omega (arith, h, v.used_known, v.init_fits)) in
    let more : s.totalused - count + count ≡ s.totalused = omega (arith, h) in
    record { state = s; ran = rw (known, nonempty, back, more) refl; valid = v; queue_after = refl }

-- the front of the queue comes back and the rest stays; unget takes that back
pub record Takes (s : WvCircularBufStore) (count : ℕ) (o : Option (Bytes × WvCircularBufStore))
    : Type 0 where
  pub state : WvCircularBufStore
  pub ran : o ≡ some (take count (queue s), state)
  pub valid : IsValid state
  pub same_size : xsize state ≡ xsize s
  pub rest : queue state ≡ drop count (queue s)
  pub undone : Leads (unget count state) (queue s)

read-queue :
    (s : WvCircularBufStore) (first count : ℕ)
    → IsValid s
    → count ≤ s.totalused
    → first ≡ (s.head + 0) % xsize s
    → first + count ≤ xsize s
    → read first count s.bytes ≡ take count (queue s)
read-queue s first count v h place inside =
    let at_head : first ≡ s.head =
      place ∙ ap (λ n. n % xsize s) (omega arith) ∙ mod-eq_of_lt v.head_inside in
    sym (ring_inside s.bytes first count inside)
    ∙ rw at_head (sym (take-take count s.totalused (drop s.head s.bytes ++ s.bytes) h))

get-Reached :
    (s : WvCircularBufStore) (count : ℕ)
    → count ≤ s.totalused
    → Reached s 0 count (ensurecontiguous (pos 0) count false s)
    → Takes s count (get count s)
unfolding get
get-Reached s count h r =
    let enough : ltb s.totalused count ≡ false = ground (arith, h) in
    let h' : count ≤ r.state.totalused = omega (arith, h, r.same_used) in
    record {
      state = advanced count r.state;
      ran =
          rw
            (
              enough,
              r.ran,
              read-queue r.state r.first count r.valid h' r.first_place r.contiguous,
              r.same_queue,
            )
            refl;
      valid = advanced-IsValid r.state count r.valid;
      same_size = r.same_size;
      rest = queue-advanced r.state count r.valid h' ∙ ap (drop count) r.same_queue;
      undone =
          subst (Leads (unget count (advanced count r.state))) r.same_queue
            (unget-advanced r.state count r.valid h');
    }

pub get_lem :
    (s : WvCircularBufStore) (count : ℕ)
    → IsValid s
    → count ≤ s.totalused
    → Takes s count (get count s)
get_lem s count v h =
    get-Reached s count h
      (ensurecontiguous-Reached s 0 count v (omega (arith, h, v.used_known, v.init_fits)))

pub get_refuses : (s : WvCircularBufStore) (count : ℕ) → s.totalused < count → get count s ≡ none
unfolding get
get_refuses s count h = rw (lt→ltb s.totalused count h) refl

-- unget in any state puts bytes before the queue.
pub unget_lem :
    (s : WvCircularBufStore) (count : ℕ)
    → IsValid s
    → count ≤ ungettable s
    → (t : WvCircularBufStore) × (unget count s ≡ some t)
      × IsValid t
      × (t.totalused ≡ s.totalused + count)
      × (drop count (queue t) ≡ queue s)
unfolding unget
unget_lem s count v h =
    let known : ltb (ungettable s) count ≡ false = ground (arith, h) in
    let nonempty : (xsize s == 0) ≡ false = ground (arith, v.head_inside) in
    let t : WvCircularBufStore = record s {
      head = (s.head + xsize s - count) % xsize s;
      totalused = s.totalused + count;
    } in
    let valid : IsValid t = record {
      head_inside = mod-lt (s.head + xsize s - count) {m = xsize s} (omega (arith, v.head_inside));
      used_known = omega (arith, h, v.used_known);
      init_fits = v.init_fits;
    } in
    let back : ((s.head + xsize s - count) % xsize s + count) % xsize s ≡ s.head =
      mod-add-mod (s.head + xsize s - count) (xsize s) count
      ∙ ap (λ n. n % xsize s) (omega (arith, h, v.init_fits))
      ∙ mod_turn s.head (xsize s) (omega (arith, v.head_inside))
      ∙ mod-eq_of_lt v.head_inside in
    let fewer : s.totalused + count - count ≡ s.totalused = omega arith in
    (
      t,
      rw (known, nonempty) refl,
      valid,
      refl,
      sym (queue-advanced t count valid (omega arith)) ∙ rw (back, fewer) refl,
    )
