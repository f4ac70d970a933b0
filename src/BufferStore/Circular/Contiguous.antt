-- ===== src/BufferStore/Circular/Contiguous.antt =====
-- `ensurecontiguous` without history: the region can be reached by one index, and the queue stays as it is.
use wvstreams.Prelude.{
  ℕ, ◌+◌, ◌-◌, ◌%◌, ◌≤◌, false, Option, some, Bytes, length, take, leb, ◌==◌, ◌≡◌, refl, sym, ap,
  ◌∙◌, arith, Bool-cases, inl, inr,
}
use wvstreams.Prelude.Int.{pos}
use native.Mathlib.Nat.{mod-eq_of_lt, mod-lt}
use wvstreams.BufferStore.Circular.{
  WvCircularBufStore, xsize, compact, make_contiguous, ensurecontiguous,
}
use wvstreams.BufferStore.Circular.Compact.{Begins, compact_lem}
use wvstreams.BufferStore.Circular.Ring.{ring, length-ring, ring_inside, mod_turn}
use wvstreams.BufferStore.Circular.State.{IsValid, queue}

-- the state and index that come back
pub record Reached (s : WvCircularBufStore) (offset count : ℕ) (o : Option (ℕ × WvCircularBufStore))
    : Type 0 where
  pub first : ℕ
  pub state : WvCircularBufStore
  pub ran : o ≡ some (first, state)
  pub valid : IsValid state
  pub same_size : xsize state ≡ xsize s
  pub same_used : state.totalused ≡ s.totalused
  pub init_bound : state.totalinit ≤ s.totalinit
  pub same_queue : queue state ≡ queue s
  pub first_place : first ≡ (state.head + offset) % xsize state
  pub contiguous : first + count ≤ xsize state

-- what was brought to the start is the queue
pub front-ring :
    (d result : Bytes) (head count h : ℕ)
    → head ≤ length d
    → count ≤ length d
    → length result ≡ length d
    → take (length (ring d head count)) result ≡ ring d head count
    → h ≡ 0
    → ring result h count ≡ ring d head count
front-ring d result head count h hd fits size front zero_head = rw zero_head (
    ring_inside result 0 count (omega (arith, fits, size))
    ∙ ap (λ n. take n result) (sym (length-ring d head count hd fits))
    ∙ front)

compacted :
    (s : WvCircularBufStore) (offset count : ℕ)
    → IsValid s
    → offset + count ≤ xsize s
    → 1 ≤ count
    → Begins s.bytes (queue s) (compact s.bytes s.head s.totalused)
    → Reached s offset count (make_contiguous (pos offset) false s)
unfolding make_contiguous
compacted s offset count v fits some_bytes b =
    let start_head : s.head % xsize s ≡ s.head = mod-eq_of_lt v.head_inside in
    let zero_head : s.totalused - s.totalused ≡ 0 = omega arith in
    let offset_inside : offset % xsize s ≡ offset =
      mod-eq_of_lt (omega (arith, fits, some_bytes)) in
    let first : (s.totalused - s.totalused + xsize s + offset) % xsize s ≡ offset =
      ap (λ n. n % xsize s) (omega arith)
      ∙ mod_turn offset (xsize s) (omega (arith, fits, some_bytes))
      ∙ offset_inside in
    record {
      first = (s.totalused - s.totalused + xsize s + offset) % xsize s;
      state = record {
        bytes = b.result;
        head = s.totalused - s.totalused;
        totalused = s.totalused;
        totalinit = s.totalused;
      };
      ran = rw (start_head, b.ran) refl;
      valid = record {
        head_inside = omega (arith, b.same_length, zero_head, fits, some_bytes);
        used_known = omega arith;
        init_fits = omega (arith, b.same_length, v.used_known, v.init_fits);
      };
      same_size = b.same_length;
      same_used = refl;
      init_bound = v.used_known;
      same_queue =
          front-ring s.bytes b.result s.head s.totalused (s.totalused - s.totalused)
            (omega (arith, v.head_inside)) (omega (arith, v.used_known, v.init_fits)) b.same_length
            b.front_bytes zero_head;
      first_place =
          first
          ∙ rw (b.same_length, zero_head) (sym offset_inside ∙ ap (λ n. n % xsize s) (omega arith));
      contiguous = omega (arith, first, fits, b.same_length);
    }

make_contiguous-Reached :
    (s : WvCircularBufStore) (offset count : ℕ)
    → IsValid s
    → offset + count ≤ xsize s
    → 1 ≤ count
    → Reached s offset count (make_contiguous (pos offset) false s)
make_contiguous-Reached s offset count v fits some_bytes =
    compacted s offset count v fits some_bytes (
      compact_lem s.bytes s.head s.totalused v.head_inside
        (omega (arith, v.used_known, v.init_fits)))

-- A region that is contiguous already leaves the state alone.
unmoved :
    (s : WvCircularBufStore) (offset count : ℕ)
    → IsValid s
    → (s.head + xsize s + offset) % xsize s + count ≤ xsize s
    → Reached s offset count (some ((s.head + xsize s + offset) % xsize s, s))
unmoved s offset count v h = record {
  first = (s.head + xsize s + offset) % xsize s;
  state = s;
  ran = refl;
  valid = v;
  same_size = refl;
  same_used = refl;
  init_bound = omega arith;
  same_queue = refl;
  first_place =
      ap (λ n. n % xsize s) (omega arith)
      ∙ mod_turn (s.head + offset) (xsize s) (omega (arith, v.head_inside));
  contiguous = h;
}

pub ensurecontiguous-Reached :
    (s : WvCircularBufStore) (offset count : ℕ)
    → IsValid s
    → offset + count ≤ xsize s
    → Reached s offset count (ensurecontiguous (pos offset) count false s)
unfolding ensurecontiguous
ensurecontiguous-Reached s offset count v fits =
    let nonempty : (xsize s == 0) ≡ false = ground (arith, v.head_inside) in
    rw nonempty (elim (Bool-cases (count == 0)) [
      | inl e ↦ rw e (
          unmoved s offset count v (
            let none_asked : count ≡ 0 = ground arith in
            omega (
              arith,
              none_asked,
              mod-lt (s.head + xsize s + offset) {m = xsize s} (omega (arith, v.head_inside)),
            )))
      | inr e ↦ elim (Bool-cases (leb ((s.head + xsize s + offset) % xsize s + count) (xsize s))) [
        | inl i ↦ rw (e, i) (unmoved s offset count v (ground (arith, i)))
        | inr i ↦ rw (e, i) (make_contiguous-Reached s offset count v fits (ground (arith, e)))
      ]
    ])
