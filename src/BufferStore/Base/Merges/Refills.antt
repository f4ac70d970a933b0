-- ===== src/BufferStore/Base/Merges/Refills.antt =====
-- The two refills at the start of a round of basicmerge.
use wvstreams.Prelude.{
  ℕ, ◌+◌, ◌≤◌, false, Option, some, List, [], ◌∷◌, ◌++◌, append-nil, Bytes, length, take, ◌==◌, ◌≡◌,
  refl, sym, ap, ◌∙◌, arith, Bool-cases, inl, inr, length-take, take_rest,
}
use wvstreams.BufferStore.Base.{Store, at_most, refill_in, refill_out}
use wvstreams.BufferStore.Base.Laws.{Contract}
use wvstreams.BufferStore.Base.Puts.{at_most_left, at_most_right, at_most_some}

pub length_zero : {A : Type 0} (v : List A) → length v ≡ 0 → v ≡ []
length_zero [] h = refl
length_zero (x ∷ v) h = absurd (omega arith)

module _ {S : Type 0} (store : Store S) (c : Contract store) where
  open store use {used, free, optgettable, optallocable}
  open c use {IsValid, queue, Tail}

  -- one or more bytes are at hand, and the bytes at hand and in the store are the same as before
  pub record RefillsIn (count : ℕ) (indata : Bytes) (s : S) (o : Option (Bytes × S)) : Type 0 where
    pub bytes : Bytes
    pub state : S
    pub ran : o ≡ some (bytes, state)
    pub valid : IsValid state
    pub some_bytes : 1 ≤ length bytes
    pub bounded : length bytes ≤ count
    pub same_pending : bytes ++ queue state ≡ indata ++ queue s

  pub refill_in_lem :
      (count : ℕ) (indata : Bytes) (s : S)
      → IsValid s
      → 1 ≤ count
      → length indata ≤ count
      → count ≤ length indata + used s
      → RefillsIn count indata s (refill_in store count indata s)
  unfolding refill_in
  refill_in_lem count indata s v h k e = elim (Bool-cases (length indata == 0)) [
    | inl z ↦
        let nothing : length indata ≡ 0 = ground (arith, z) in
        let avail = c.gettable_some s v (omega (arith, nothing, h, e)) in
        let some_avail : (optgettable s == 0) ≡ false = ground (arith, avail) in
        let amount : ℕ = at_most (optgettable s) count in
        let fits : amount ≤ used s =
          omega (arith, at_most_left (optgettable s) count, c.gettable_bound s v) in
        let (t, got, valid, rest) = c.get_law s amount v fits in
        let size : length (take amount (queue s)) ≡ amount =
          length-take amount (queue s) (omega (arith, fits, c.length_queue s v)) in
        rw (z, some_avail)
          (record {
            bytes = take amount (queue s);
            state = t;
            ran = got;
            valid = valid;
            some_bytes = omega (arith, size, at_most_some (optgettable s) count avail h);
            bounded = omega (arith, size, at_most_right (optgettable s) count);
            same_pending =
                ap (◌++◌ (take amount (queue s))) rest
                ∙ take_rest amount (queue s)
                ∙ ap (λ i. i ++ queue s) (sym (length_zero indata nothing));
          })
    | inr z ↦ rw z (record {
      bytes = indata;
      state = s;
      ran = refl;
      valid = v;
      some_bytes = ground (arith, z);
      bounded = k;
      same_pending = refl;
    })
  ]

  -- what is allocated behind `front`
  pub record Allocated (outdata outavail : ℕ) (t : S) (front junk : Bytes) : Type 0 where
    pub valid : IsValid t
    pub size : length junk ≡ outavail
    pub stands : queue t ≡ front ++ junk
    pub tail : 1 ≤ outavail → Tail t outdata outavail

  pub record RefillsOut (room count : ℕ) (front : Bytes) (o : Option ((ℕ × ℕ) × S)) : Type 0 where
    pub outdata : ℕ
    pub outavail : ℕ
    pub state : S
    pub junk : Bytes
    pub ran : o ≡ some ((outdata, outavail), state)
    pub some_room : 1 ≤ outavail
    pub bounded : outavail ≤ count
    pub allocated : Allocated outdata outavail state front junk
    pub enough : count ≤ outavail + free state
    pub same_room : outavail + free state ≡ room

  pub refill_out_lem :
      (count outdata outavail : ℕ) (t : S) (front junk : Bytes)
      → 1 ≤ count
      → outavail ≤ count
      → Allocated outdata outavail t front junk
      → count ≤ outavail + free t
      → RefillsOut (outavail + free t) count front (refill_out store count outdata outavail t)
  unfolding refill_out
  refill_out_lem count outdata outavail t front junk h k a e = elim (Bool-cases (outavail == 0)) [
    | inl z ↦
        let nothing : outavail ≡ 0 = ground (arith, z) in
        let room = c.allocable_some t a.valid (omega (arith, nothing, h, e)) in
        let some_room : (optallocable t == 0) ≡ false = ground (arith, room) in
        let amount : ℕ = at_most (optallocable t) count in
        let fits : amount ≤ free t =
          omega (arith, at_most_left (optallocable t) count, c.allocable_bound t a.valid) in
        let (first, u, more, ran, valid, longer, size, tail, less) =
          c.alloc_law t amount a.valid fits in
        let before : queue t ≡ front =
          a.stands
          ∙ ap (◌++◌ front) (length_zero junk (omega (arith, a.size, nothing)))
          ∙ append-nil front in
        rw (z, some_room)
          (record {
            outdata = first;
            outavail = amount;
            state = u;
            junk = more;
            ran = rw ran refl;
            some_room = at_most_some (optallocable t) count room h;
            bounded = at_most_right (optallocable t) count;
            allocated = record {
              valid = valid;
              size = size;
              stands = longer ∙ ap (λ q. q ++ more) before;
              tail = λ _. tail;
            };
            enough = omega (arith, less, e, nothing);
            same_room = omega (arith, less, nothing);
          })
    | inr z ↦ rw z (record {
      outdata = outdata;
      outavail = outavail;
      state = t;
      junk = junk;
      ran = refl;
      some_room = ground (arith, z);
      bounded = k;
      allocated = a;
      enough = e;
      same_room = refl;
    })
  ]
