-- ===== src/BufferStore/Circular/Peek/Moves.antt =====
-- A peek for which the bytes are brought to the start of the array, history first, and one that finds them
-- in one piece.
use wvstreams.Prelude.{
  ◌>>=◌, ℕ, ◌+◌, ◌-◌, ◌%◌, ◌≤◌, ◌<◌, true, Option, some, ◌++◌, Bytes, length, take, drop, leb, ◌==◌,
  ◌⊎◌, ◌≡◌, refl, sym, ap, ◌∙◌, arith, Bool-cases, inl, inr, take-take, drop-append_at,
}
use wvstreams.Prelude.Int.{ℤ, pos, negsuc}
use native.Mathlib.Nat.{mod-eq_of_lt, mod-lt, mod-add-mod}
use wvstreams.BufferStore.Circular.{
  WvCircularBufStore, xsize, ungettable, read, shifted, within_peek, compact, make_contiguous,
}
use wvstreams.BufferStore.Circular.Compact.{Begins}
use wvstreams.BufferStore.Circular.Ring.{ring, length-ring, ring_inside, ring_split, mod_turn}
use wvstreams.BufferStore.Circular.State.{IsValid, queue, oldest, memory, queue-memory}
use wvstreams.BufferStore.Circular.Contiguous.{front-ring}

-- the place of an offset in the memory
abbrev pub place : ℤ → WvCircularBufStore → ℕ
place offset s = shifted (ungettable s) offset

-- what a peek leaves, with the bytes it shows
pub record Peeks (s : WvCircularBufStore) (offset : ℤ) (count : ℕ)
    (o : Option (Bytes × WvCircularBufStore)) : Type 0 where
  pub state : WvCircularBufStore
  pub ran : o ≡ some (take count (drop (place offset s) (memory s)), state)
  pub same_memory : memory state ≡ memory s
  pub same_queue : queue state ≡ queue s
  pub same_used : state.totalused ≡ s.totalused
  pub same_init : state.totalinit ≡ s.totalinit
  pub same_size : xsize state ≡ xsize s
  pub valid : (ungettable s ≡ xsize s) ⊎ IsValid state

-- the index of a place in the memory
index-place :
    (s : WvCircularBufStore) (offset : ℤ)
    → IsValid s
    → within_peek offset s ≡ true
    → (oldest s + place offset s) % xsize s ≡ shifted (s.head + xsize s) offset % xsize s
index-place s (pos o) v w =
    mod-add-mod (s.head + xsize s - ungettable s) (xsize s) (ungettable s + o)
    ∙ ap (λ n. n % xsize s) (omega (arith, v.init_fits))
index-place s (negsuc o) v w =
    let known : o + 1 ≤ ungettable s = ground (arith, w) in
    mod-add-mod (s.head + xsize s - ungettable s) (xsize s) (ungettable s - (o + 1))
    ∙ ap (λ n. n % xsize s) (omega (arith, v.init_fits, known))

-- A part of a ring that can be read at one index.
read-ring :
    (d : Bytes) (start total first p count : ℕ)
    → start < length d
    → total ≤ length d
    → p + count ≤ total
    → first ≡ (start + p) % length d
    → first + count ≤ length d
    → take count (drop first d) ≡ take count (drop p (ring d start total))
read-ring d start total first p count h k fits index inside =
    let parts : ring d start total ≡ ring d start p ++ ring d first (total - p) =
      ap (ring d start) (omega (arith, fits))
      ∙ ring_split d start p (total - p) h (omega (arith, k, fits))
      ∙ ap (λ n. ring d start p ++ ring d n (total - p)) (sym index) in
    let front : length (ring d start p) ≡ p =
      length-ring d start p (omega (arith, h)) (omega (arith, k, fits)) in
    sym (ring_inside d first count inside)
    ∙ sym (take-take count (total - p) (drop first d ++ d) (omega (arith, fits)))
    ∙ sym (
        ap (take count)
          (rw parts (drop-append_at p (ring d start p) (ring d first (total - p)) (sym front))))

pub unmoved-Peeks :
    (s : WvCircularBufStore) (offset : ℤ) (count : ℕ)
    → IsValid s
    → within_peek offset s ≡ true
    → place offset s + count ≤ s.totalinit
    → shifted (s.head + xsize s) offset % xsize s + count ≤ xsize s
    → Peeks s offset count
        (some (read (shifted (s.head + xsize s) offset % xsize s) count s.bytes, s))
unmoved-Peeks s offset count v w fits inside = record {
  state = s;
  ran =
      ap (λ b. some (b, s))
        (read-ring s.bytes (oldest s) s.totalinit (shifted (s.head + xsize s) offset % xsize s)
          (place offset s) count
          (mod-lt (s.head + xsize s - ungettable s) {m = xsize s} (omega (arith, v.head_inside)))
          v.init_fits fits (sym (index-place s offset v w)) inside);
  same_memory = refl;
  same_queue = refl;
  same_used = refl;
  same_init = refl;
  same_size = refl;
  valid = inr v;
}

-- `make_contiguous` with history, and the read behind it
abbrev pub moved_read : ℤ → ℕ → WvCircularBufStore → Option (Bytes × WvCircularBufStore)
moved_read offset count s = do
  (first, t) ← make_contiguous offset true s
  some (read first count t.bytes, t)

-- the index after the memory was brought to the start
index_moved :
    (s : WvCircularBufStore) (offset : ℤ) (count : ℕ)
    → within_peek offset s ≡ true
    → 1 ≤ count
    → place offset s + count ≤ xsize s
    → shifted (ungettable s + xsize s) offset % xsize s ≡ place offset s
index_moved s (pos o) count w h k =
    ap (λ n. n % xsize s) (omega arith)
    ∙ mod_turn (ungettable s + o) (xsize s) (omega (arith, h, k))
    ∙ mod-eq_of_lt (omega (arith, h, k))
index_moved s (negsuc o) count w h k =
    let known : o + 1 ≤ ungettable s = ground (arith, w) in
    ap (λ n. n % xsize s) (omega (arith, known))
    ∙ mod_turn (ungettable s - (o + 1)) (xsize s) (omega (arith, h, k))
    ∙ mod-eq_of_lt (omega (arith, h, k))

-- the state behind it
abbrev pub moved :
    (s : WvCircularBufStore)
    → Begins s.bytes (memory s) (compact s.bytes (oldest s) s.totalinit)
    → WvCircularBufStore
moved s b = record {
  bytes = b.result;
  head = s.totalinit - s.totalused;
  totalused = s.totalused;
  totalinit = s.totalinit;
}

module _ (s : WvCircularBufStore) (v : IsValid s)
    (b : Begins s.bytes (memory s) (compact s.bytes (oldest s) s.totalinit)) where
  oldest-moved : oldest (moved s b) ≡ 0
  oldest-moved = rw b.same_length (
      ap (λ n. n % xsize s) (omega arith)
      ∙ mod_turn 0 (xsize s) (omega (arith, v.head_inside))
      ∙ mod-eq_of_lt (omega (arith, v.head_inside)))

  memory-moved : memory (moved s b) ≡ memory s
  memory-moved =
      front-ring s.bytes b.result (oldest s) s.totalinit (oldest (moved s b))
        (omega (
          arith,
          mod-lt (s.head + xsize s - ungettable s) {m = xsize s} (omega (arith, v.head_inside)),
        ))
        v.init_fits b.same_length b.front_bytes oldest-moved

  moved-IsValid : ungettable s < xsize s → IsValid (moved s b)
  moved-IsValid u = record {
    head_inside = omega (arith, u, b.same_length);
    used_known = v.used_known;
    init_fits = omega (arith, b.same_length, v.init_fits);
  }

  -- The queue is kept too: where it is empty there is nothing to show, and else it stands in the memory.
  moved_queue : queue (moved s b) ≡ queue s
  moved_queue = elim (Bool-cases (s.totalused == 0)) [
    | inl e ↦ let nothing : s.totalused ≡ 0 = ground (arith, e) in rw nothing refl
    | inr e ↦
        let unread : 1 ≤ s.totalused = ground (arith, e) in
        queue-memory (moved s b) (moved-IsValid (omega (arith, unread, v.used_known, v.init_fits)))
        ∙ ap (drop (ungettable s)) memory-moved
        ∙ sym (queue-memory s v)
  ]

  pub moved_shows :
      (offset : ℤ) (count : ℕ)
      → within_peek offset s ≡ true
      → 1 ≤ count
      → place offset s + count ≤ s.totalinit
      → moved_read offset count s ≡ some (take count (drop (place offset s) (memory s)), moved s b)
  unfolding make_contiguous
  moved_shows offset count w h fits =
      let index = index_moved s offset count w h (omega (arith, fits, v.init_fits)) in
      let first : ℕ = shifted (ungettable s + xsize s) offset % xsize s in
      let at_place : first ≡ (oldest (moved s b) + place offset s) % length b.result =
        rw (oldest-moved, b.same_length)
          (index
            ∙ sym (mod-eq_of_lt (omega (arith, fits, v.init_fits, h)))
            ∙ ap (λ n. n % xsize s) (omega arith)) in
      let shown : read first count b.result ≡ take count (drop (place offset s) (memory s)) =
        read-ring b.result (oldest (moved s b)) s.totalinit first (place offset s) count
          (omega (arith, oldest-moved, b.same_length, v.head_inside))
          (omega (arith, b.same_length, v.init_fits)) fits at_place
          (omega (arith, index, fits, b.same_length, v.init_fits))
        ∙ ap (λ m. take count (drop (place offset s) m)) memory-moved in
      rw b.ran (ap (λ r. some (r, moved s b)) shown)

pub compacted-Peeks :
    (s : WvCircularBufStore) (offset : ℤ) (count : ℕ)
    → IsValid s
    → within_peek offset s ≡ true
    → 1 ≤ count
    → place offset s + count ≤ s.totalinit
    → Begins s.bytes (memory s) (compact s.bytes (oldest s) s.totalinit)
    → Peeks s offset count (moved_read offset count s)
compacted-Peeks s offset count v w h fits b = record {
  state = moved s b;
  ran = moved_shows s v b offset count w h fits;
  same_memory = memory-moved s v b;
  same_queue = moved_queue s v b;
  same_used = refl;
  same_init = refl;
  same_size = b.same_length;
  valid = elim (Bool-cases (leb (xsize s) (ungettable s))) [
    | inl e ↦ inl (ground (arith, e, v.init_fits))
    | inr e ↦ inr (moved-IsValid s v b (ground (arith, e)))
  ];
}
