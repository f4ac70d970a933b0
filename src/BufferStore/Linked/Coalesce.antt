-- ===== src/BufferStore/Linked/Coalesce.antt =====
-- `coalesce` joins the stores of the list until the first has the bytes asked for.
use wvstreams.Prelude.{
  ℕ, ◌+◌, ◌-◌, ◌≤◌, ◌<◌, true, false, Option, some, List, [], ◌∷◌, ◌++◌, append_assoc, Bytes,
  length, length-append, take, drop, ltb, ◌==◌, ◌≡◌, refl, sym, ap, ◌∙◌, arith, Bool-cases, inl,
  inr, take-append, drop-append, take-append_more, drop-append_more, take-length,
}
use wvstreams.BufferStore.Base.{at_most, basicmerge}
use wvstreams.BufferStore.Base.Puts.{at_most_left, at_most_right}
use wvstreams.BufferStore.Base.Merges.{basicmerge_lem}
use wvstreams.BufferStore.Base.Merges.Rounds.{Moves}
use wvstreams.BufferStore.Circular
use wvstreams.BufferStore.Circular.{WvCircularBufStore, store}
use wvstreams.BufferStore.Circular.State.{IsValid, queue, length-queue}
use wvstreams.BufferStore.Circular.Implements.{contract}
use wvstreams.BufferStore.Linked.{merge_chunk, coalesce_loop}
use wvstreams.BufferStore.Base.Merges.Refills.{length_zero}

-- the bytes of a list of stores
abbrev pub queues : List WvCircularBufStore → Bytes
queues [] = []
queues (buf ∷ rest) = queue buf ++ queues rest

pub data AllValid : List WvCircularBufStore → Type 0 where
  none_valid : AllValid []
  next_valid :
      {buf : WvCircularBufStore} {rest : List WvCircularBufStore}
      → IsValid buf
      → AllValid rest
      → AllValid (buf ∷ rest)

-- `needed` bytes of the list went behind the store `buf`
pub record Coalesced (buf : WvCircularBufStore) (needed : ℕ) (list : List WvCircularBufStore)
    (o : Option (WvCircularBufStore × List WvCircularBufStore)) : Type 0 where
  pub first : WvCircularBufStore
  pub rest : List WvCircularBufStore
  pub ran : o ≡ some (first, rest)
  pub first_valid : IsValid first
  pub rest_valid : AllValid rest
  pub first_queue : queue first ≡ queue buf ++ take needed (queues list)
  pub rest_queue : queues rest ≡ drop needed (queues list)

-- the chunk
module _ (buf itbuf : WvCircularBufStore) (needed : ℕ) (rest : List WvCircularBufStore)
    (m : Moves store store contract contract
      (Circular.free buf)
      (at_most itbuf.totalused needed)
      (queue itbuf)
      (queue buf)
      (basicmerge store store (at_most itbuf.totalused needed) itbuf buf)) where
  chunk_step :
      1 ≤ itbuf.totalused
      → coalesce_loop buf needed (itbuf ∷ rest)
        ≡ merge_chunk (λ b n. coalesce_loop b n rest) buf needed itbuf rest
  unfolding coalesce_loop
  chunk_step h =
      let some_used : (itbuf.totalused == 0) ≡ false = ground (arith, h) in
      rw (some_used, coalesce_loop) refl

  more_step :
      1 ≤ itbuf.totalused
      → itbuf.totalused < needed
      → coalesce_loop buf needed (itbuf ∷ rest)
        ≡ coalesce_loop m.filled (needed - at_most itbuf.totalused needed) rest
  more_step h lt =
      let more : (needed - at_most itbuf.totalused needed == 0) ≡ false = ground (arith, lt) in
      chunk_step h ∙ unfold merge_chunk in rw (m.ran, more) refl

  last_step :
      1 ≤ itbuf.totalused
      → needed ≤ itbuf.totalused
      → coalesce_loop buf needed (itbuf ∷ rest) ≡ some (m.filled, m.left ∷ rest)
  last_step h le =
      let done : (needed - at_most itbuf.totalused needed == 0) ≡ true = ground (arith, le) in
      chunk_step h ∙ unfold merge_chunk in rw (m.ran, done) refl

skip_step :
    (buf itbuf : WvCircularBufStore) (needed : ℕ) (rest : List WvCircularBufStore)
    → itbuf.totalused ≡ 0
    → coalesce_loop buf needed (itbuf ∷ rest) ≡ coalesce_loop buf needed rest
unfolding coalesce_loop
skip_step buf itbuf needed rest h =
    let none_used : (itbuf.totalused == 0) ≡ true = ground (arith, h) in
    rw (none_used, coalesce_loop) refl

-- Every store but the last that is needed is merged whole.
whole_first :
    (buf itbuf : WvCircularBufStore) (needed : ℕ) (rest : List WvCircularBufStore)
    → IsValid itbuf
    → 1 ≤ itbuf.totalused
    → itbuf.totalused < needed
    → (m : Moves store store contract contract
        (Circular.free buf)
        (at_most itbuf.totalused needed)
        (queue itbuf)
        (queue buf)
        (basicmerge store store (at_most itbuf.totalused needed) itbuf buf))
    → Coalesced m.filled
        (needed - at_most itbuf.totalused needed)
        rest
        (coalesce_loop m.filled (needed - at_most itbuf.totalused needed) rest)
    → Coalesced buf needed (itbuf ∷ rest) (coalesce_loop buf needed (itbuf ∷ rest))
whole_first buf itbuf needed rest v h lt m c =
    let chunk : at_most itbuf.totalused needed ≡ length (queue itbuf) =
      ground (arith, lt, length-queue itbuf v) in
    let split : needed ≡ length (queue itbuf) + (needed - at_most itbuf.totalused needed) =
      omega (arith, chunk, lt, length-queue itbuf v) in
    record {
      first = c.first;
      rest = c.rest;
      ran = more_step buf itbuf needed rest m h lt ∙ c.ran;
      first_valid = c.first_valid;
      rest_valid = c.rest_valid;
      first_queue =
          c.first_queue
          ∙ ap (λ q. q ++ take (needed - at_most itbuf.totalused needed) (queues rest))
              (m.filled_queue
                ∙ ap (λ q. queue buf ++ q)
                    (ap (λ n. take n (queue itbuf)) chunk ∙ take-length (queue itbuf)))
          ∙ append_assoc (queue buf) (queue itbuf)
              (take (needed - at_most itbuf.totalused needed) (queues rest))
          ∙ ap (λ q. queue buf ++ q)
              (sym (
                ap (λ n. take n (queue itbuf ++ queues rest)) split
                ∙ take-append_more (needed - at_most itbuf.totalused needed) (queue itbuf)
                    (queues rest)));
      rest_queue =
          c.rest_queue
          ∙ sym (
              ap (λ n. drop n (queue itbuf ++ queues rest)) split
              ∙ drop-append_more (needed - at_most itbuf.totalused needed) (queue itbuf)
                  (queues rest));
    }

last_part :
    (buf itbuf : WvCircularBufStore) (needed : ℕ) (rest : List WvCircularBufStore)
    → IsValid itbuf
    → AllValid rest
    → 1 ≤ itbuf.totalused
    → needed ≤ itbuf.totalused
    → Moves store store contract contract
        (Circular.free buf)
        (at_most itbuf.totalused needed)
        (queue itbuf)
        (queue buf)
        (basicmerge store store (at_most itbuf.totalused needed) itbuf buf)
    → Coalesced buf needed (itbuf ∷ rest) (coalesce_loop buf needed (itbuf ∷ rest))
last_part buf itbuf needed rest v r h le m =
    let chunk : at_most itbuf.totalused needed ≡ needed = ground (arith, le) in
    let part : needed ≤ length (queue itbuf) = omega (arith, le, length-queue itbuf v) in
    record {
      first = m.filled;
      rest = m.left ∷ rest;
      ran = last_step buf itbuf needed rest m h le;
      first_valid = m.filled_valid;
      rest_valid = next_valid m.left_valid r;
      first_queue =
          m.filled_queue
          ∙ ap (λ n. queue buf ++ take n (queue itbuf)) chunk
          ∙ ap (λ q. queue buf ++ q) (sym (take-append needed (queue itbuf) (queues rest) part));
      rest_queue =
          ap (λ q. q ++ queues rest) (m.left_queue ∙ ap (λ n. drop n (queue itbuf)) chunk)
          ∙ sym (drop-append needed (queue itbuf) (queues rest) part);
    }

nothing_before :
    (buf itbuf : WvCircularBufStore) (needed : ℕ) (rest : List WvCircularBufStore)
    → IsValid itbuf
    → itbuf.totalused ≡ 0
    → Coalesced buf needed rest (coalesce_loop buf needed rest)
    → Coalesced buf needed (itbuf ∷ rest) (coalesce_loop buf needed (itbuf ∷ rest))
nothing_before buf itbuf needed rest v h c =
    let same : queue itbuf ++ queues rest ≡ queues rest =
      ap (λ q. q ++ queues rest) (length_zero (queue itbuf) (length-queue itbuf v ∙ h)) in
    record {
      first = c.first;
      rest = c.rest;
      ran = skip_step buf itbuf needed rest h ∙ c.ran;
      first_valid = c.first_valid;
      rest_valid = c.rest_valid;
      first_queue = c.first_queue ∙ ap (λ q. queue buf ++ take needed q) (sym same);
      rest_queue = c.rest_queue ∙ ap (drop needed) (sym same);
    }

pub coalesce_loop_lem :
    (buf : WvCircularBufStore) (needed : ℕ) (list : List WvCircularBufStore)
    → IsValid buf
    → AllValid list
    → 1 ≤ needed
    → needed ≤ Circular.free buf
    → needed ≤ length (queues list)
    → Coalesced buf needed list (coalesce_loop buf needed list)
coalesce_loop_lem buf needed [] v w h f e = absurd (omega (arith, h, e))
coalesce_loop_lem buf needed (itbuf ∷ rest) v (next_valid i r) h f e =
    elim (Bool-cases (itbuf.totalused == 0)) [
      | inl z ↦
          let nothing : itbuf.totalused ≡ 0 = ground (arith, z) in
          nothing_before buf itbuf needed rest i nothing (
            coalesce_loop_lem buf needed rest v r h f (
              omega (
                arith,
                e,
                nothing,
                length-append {0} (queue itbuf) (queues rest),
                length-queue itbuf i,
              )))
      | inr z ↦
          let used : 1 ≤ itbuf.totalused = ground (arith, z) in
          let left = at_most_left itbuf.totalused needed in
          let right = at_most_right itbuf.totalused needed in
          let m =
            basicmerge_lem store store contract contract (at_most itbuf.totalused needed) itbuf buf
              i v left (omega (arith, right, f)) in
          elim (Bool-cases (ltb itbuf.totalused needed)) [
            | inl l ↦
                let lt : itbuf.totalused < needed = ground (arith, l) in
                let chunk : at_most itbuf.totalused needed ≡ itbuf.totalused = ground (arith, lt) in
                whole_first buf itbuf needed rest i used lt m (
                  coalesce_loop_lem m.filled (needed - at_most itbuf.totalused needed) rest
                    m.filled_valid r (omega (arith, chunk, lt)) (omega (arith, m.less_free, f))
                    (omega (
                      arith,
                      e,
                      chunk,
                      length-append {0} (queue itbuf) (queues rest),
                      length-queue itbuf i,
                    )))
            | inr l ↦ last_part buf itbuf needed rest i r used (ground (arith, l)) m
          ]
    ]
