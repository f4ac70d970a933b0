-- ===== src/BufferStore/Base/Merges/Rounds.antt =====
-- A round of basicmerge's loop, on each of its ways, and what the loop's other rounds do after it.
use wvstreams.Prelude.{
  ℕ, suc, ◌+◌, ◌-◌, ◌≤◌, ◌<◌, Option, some, [], ◌++◌, append_assoc, append-nil, Bytes, length, take,
  drop, ltb, ◌≡◌, refl, sym, subst, ap, ◌∙◌, arith, Bool-cases, inl, inr, length-take, length-drop,
  take_plus, drop-drop, take-append, drop-append, take-append_length, drop-append_length,
}
use wvstreams.BufferStore.Base.{Store, refill_in, refill_out, merge_loop}
use wvstreams.BufferStore.Base.Laws.{Contract}
use wvstreams.BufferStore.Base.Merges.Refills.{RefillsIn, Allocated, RefillsOut, length_zero}
use wvstreams.BufferStore.Base.Merges.Steps.{short_step, long_step, last_step}

module _ {S T : Type 0} (source : Store S) (target : Store T) (c : Contract source)
    (d : Contract target) where
  -- `count` bytes of `pending` stand behind `front` afterwards, and the others are left
  pub record Moves (room count : ℕ) (pending front : Bytes) (o : Option (S × T)) : Type 0 where
    pub left : S
    pub filled : T
    pub ran : o ≡ some (left, filled)
    pub left_valid : c.IsValid left
    pub filled_valid : d.IsValid filled
    pub left_queue : c.queue left ≡ drop count pending
    pub filled_queue : d.queue filled ≡ front ++ take count pending
    pub less_free : Store.free target filled + count ≡ room

  -- A chunk is moved first, and then the others.
  chunk_first :
      (room room' count n : ℕ) (pending front : Bytes) (o o' : Option (S × T))
      → n ≤ count
      → o' ≡ o
      → room' + n ≡ room
      → Moves room' (count - n) (drop n pending) (front ++ take n pending) o
      → Moves room count pending front o'
  chunk_first room room' count n pending front o o' h e r m = record {
    left = m.left;
    filled = m.filled;
    ran = e ∙ m.ran;
    left_valid = m.left_valid;
    filled_valid = m.filled_valid;
    left_queue =
        m.left_queue
        ∙ drop-drop (count - n) n pending
        ∙ ap (λ k. drop k pending) (omega (arith, h));
    filled_queue =
        m.filled_queue
        ∙ append_assoc front (take n pending) (take (count - n) (drop n pending))
        ∙ ap (◌++◌ front)
            (sym (take_plus n (count - n) pending) ∙ ap (λ k. take k pending) (omega (arith, h)));
    less_free = omega (arith, m.less_free, r, h);
  }

  -- what holds when a round begins
  pub record Ready (count : ℕ) (indata : Bytes) (outdata outavail : ℕ) (s : S) (t : T)
      (front junk : Bytes) : Type 0 where
    pub source_valid : c.IsValid s
    pub some_left : 1 ≤ count
    pub in_bound : length indata ≤ count
    pub out_bound : outavail ≤ count
    pub allocated : Allocated target d outdata outavail t front junk
    pub in_enough : count ≤ length indata + Store.used source s
    pub out_enough : count ≤ outavail + Store.free target t

  -- what a number of rounds does
  abbrev pub Loops : ℕ → Type 0
  Loops rounds =
      (count : ℕ) (indata : Bytes) (outdata outavail : ℕ) (s : S) (t : T) (front junk : Bytes)
      → count ≤ rounds
      → Ready count indata outdata outavail s t front junk
      → Moves (outavail + Store.free target t) count (indata ++ c.queue s) front
          (merge_loop source target rounds count indata outdata outavail s t)

  -- a round behind its refills
  module _ (rounds count : ℕ) (indata : Bytes) (outdata outavail : ℕ) (s : S) (t : T)
      (front : Bytes) (i : RefillsIn source c count indata s (refill_in source count indata s))
      (o : RefillsOut target d
        (outavail + Store.free target t)
        count
        front
        (refill_out target count outdata outavail t)) where
    tail : d.Tail o.state o.outdata (length o.junk)
    tail = subst (d.Tail o.state o.outdata) (sym o.allocated.size) (o.allocated.tail o.some_room)

    abbrev pub pending : Bytes
    pending = i.bytes ++ c.queue i.state

    module _ (more : Loops rounds) (h : count ≤ suc rounds)
        (enough : count ≤ length i.bytes + Store.used source i.state) where
      short_case :
          length i.bytes < o.outavail
          → Moves
              (outavail + Store.free target t)
              count
              pending
              front
              (merge_loop source target (suc rounds) count indata outdata outavail s t)
      short_case lt =
          let n : ℕ = length i.bytes in
          let (w, wrote, valid, written, tail', same) =
            d.write_law o.state o.outdata front o.junk i.bytes o.allocated.valid tail
              o.allocated.stands (omega (arith, lt, o.allocated.size)) in
          let moves =
            more (count - n) [] (o.outdata + n) (o.outavail - n) i.state w (front ++ i.bytes)
              (drop n o.junk) (omega (arith, h, i.some_bytes))
              (record {
                source_valid = i.valid;
                some_left = omega (arith, lt, o.bounded);
                in_bound = omega arith;
                out_bound = omega (arith, lt, o.bounded);
                allocated = record {
                  valid = valid;
                  size = omega (arith, length-drop n o.junk, o.allocated.size);
                  stands = written ∙ sym (append_assoc front i.bytes (drop n o.junk));
                  tail = λ _. subst (λ k. d.Tail w (o.outdata + n) (k - n)) o.allocated.size tail';
                };
                in_enough = omega (arith, enough);
                out_enough = omega (arith, lt, same, o.enough);
              }) in
          chunk_first (outavail + Store.free target t) (o.outavail - n + Store.free target w) count
            n pending front _ _ i.bounded
            (short_step source target c d rounds count indata outdata outavail s t front i o w lt
              wrote)
            (omega (arith, same, lt, o.same_room))
            (rw
              (
                drop-append_length i.bytes (c.queue i.state),
                take-append_length i.bytes (c.queue i.state),
              )
              moves)

      -- the room is filled with the first bytes at hand
      filled_room :
          o.outavail ≤ length i.bytes
          → (w : T) × (Store.write target o.outdata (take o.outavail i.bytes) o.state ≡ some w)
            × d.IsValid w
            × (d.queue w ≡ front ++ take o.outavail i.bytes)
            × (Store.free target w ≡ Store.free target o.state)
      filled_room le =
          let size : length (take o.outavail i.bytes) ≡ o.outavail =
            length-take o.outavail i.bytes le in
          let (w, wrote, valid, written, tail', same) =
            d.write_law o.state o.outdata front o.junk (take o.outavail i.bytes) o.allocated.valid
              tail o.allocated.stands (omega (arith, size, o.allocated.size)) in
          let none_left : drop (length (take o.outavail i.bytes)) o.junk ≡ [] = length_zero _ (
            omega (
              arith,
              length-drop (length (take o.outavail i.bytes)) o.junk,
              size,
              o.allocated.size,
            )) in
          (
            w,
            wrote,
            valid,
            written
                ∙ ap (λ r. front ++ (take o.outavail i.bytes ++ r)) none_left
                ∙ ap (◌++◌ front) (append-nil (take o.outavail i.bytes)),
            same,
          )

      last_case :
          o.outavail ≤ length i.bytes
          → count ≤ o.outavail
          → Moves
              (outavail + Store.free target t)
              count
              pending
              front
              (merge_loop source target (suc rounds) count indata outdata outavail s t)
      last_case le done =
          let (w, wrote, valid, written, same) = filled_room le in
          let all : o.outavail ≡ count = omega (arith, done, o.bounded) in
          let all' : length i.bytes ≡ count = omega (arith, le, done, i.bounded) in
          record {
            left = i.state;
            filled = w;
            ran =
                last_step source target c d rounds count indata outdata outavail s t front i o w le
                  done wrote;
            left_valid = i.valid;
            filled_valid = valid;
            left_queue = sym (
                ap (λ n. drop n pending) (sym all') ∙ drop-append_length i.bytes (c.queue i.state));
            filled_queue =
                written
                ∙ ap (λ n. front ++ take n i.bytes) all
                ∙ ap (◌++◌ front)
                    (sym (take-append count i.bytes (c.queue i.state) (omega (arith, all'))));
            less_free = omega (arith, same, all, o.same_room);
          }

      long_case :
          o.outavail ≤ length i.bytes
          → o.outavail < count
          → Moves
              (outavail + Store.free target t)
              count
              pending
              front
              (merge_loop source target (suc rounds) count indata outdata outavail s t)
      long_case le lt =
          let n : ℕ = o.outavail in
          let (w, wrote, valid, written, same) = filled_room le in
          let left = length-drop n i.bytes in
          let moves =
            more (count - n) (drop n i.bytes) o.outdata 0 i.state w (front ++ take n i.bytes) []
              (omega (arith, h, o.some_room))
              (record {
                source_valid = i.valid;
                some_left = omega (arith, lt);
                in_bound = omega (arith, left, i.bounded);
                out_bound = omega arith;
                allocated = record {
                  valid = valid;
                  size = refl;
                  stands = written ∙ sym (append-nil (front ++ take n i.bytes));
                  tail = λ e. absurd (omega (arith, e));
                };
                in_enough = omega (arith, enough, left, le);
                out_enough = omega (arith, same, o.enough);
              }) in
          chunk_first (outavail + Store.free target t) (0 + Store.free target w) count n pending
            front _ _ o.bounded
            (long_step source target c d rounds count indata outdata outavail s t front i o w le lt
              wrote)
            (omega (arith, same, o.same_room))
            (rw
              (
                drop-append n i.bytes (c.queue i.state) le,
                take-append n i.bytes (c.queue i.state) le,
              )
              moves)

      pub round-Moves :
          Moves
            (outavail + Store.free target t)
            count
            pending
            front
            (merge_loop source target (suc rounds) count indata outdata outavail s t)
      round-Moves = elim (Bool-cases (ltb (length i.bytes) o.outavail)) [
        | inl e ↦ short_case (ground (arith, e))
        | inr e ↦ elim (Bool-cases (ltb o.outavail count)) [
          | inl k ↦ long_case (ground (arith, e)) (ground (arith, k))
          | inr k ↦ last_case (ground (arith, e)) (ground (arith, k))
        ]
      ]
