-- ===== src/BufferStore/Base/Merges/Steps.antt =====
-- A round of basicmerge's loop as an equation, on each of its ways.
use wvstreams.Prelude.{
  ℕ, suc, ◌+◌, ◌-◌, ◌≤◌, ◌<◌, true, false, some, [], Bytes, length, take, drop, ltb, ◌==◌, ◌≡◌,
  refl, ◌∙◌, arith,
}
use wvstreams.BufferStore.Base.{Store, refill_in, refill_out, copy_round, merge_loop}
use wvstreams.BufferStore.Base.Laws.{Contract}
use wvstreams.BufferStore.Base.Merges.Refills.{RefillsIn, RefillsOut}

module _ {S T : Type 0} (source : Store S) (target : Store T) (c : Contract source)
    (d : Contract target) where
  -- a round behind its refills
  module _ (rounds count : ℕ) (indata : Bytes) (outdata outavail : ℕ) (s : S) (t : T)
      (front : Bytes) (i : RefillsIn source c count indata s (refill_in source count indata s))
      (o : RefillsOut target d
        (outavail + Store.free target t)
        count
        front
        (refill_out target count outdata outavail t)) where
    round_step :
        merge_loop source target (suc rounds) count indata outdata outavail s t
        ≡ copy_round source target
            (merge_loop source target rounds)
            count
            i.bytes
            o.outdata
            o.outavail
            i.state
            o.state
    unfolding merge_loop
    round_step = rw (i.ran, o.ran) refl

    -- all bytes at hand are copied, and room is left
    pub short_step :
        (w : T)
        → length i.bytes < o.outavail
        → Store.write target o.outdata i.bytes o.state ≡ some w
        → merge_loop source target (suc rounds) count indata outdata outavail s t
          ≡ merge_loop source target rounds
              (count - length i.bytes)
              []
              (o.outdata + length i.bytes)
              (o.outavail - length i.bytes)
              i.state
              w
    short_step w h e =
        let shorter : ltb (length i.bytes) o.outavail ≡ true = ground (arith, h) in
        let more : (count - length i.bytes == 0) ≡ false = ground (arith, h, o.bounded) in
        round_step ∙ unfold copy_round in rw (shorter, e, more) refl

    -- the room is filled, and more is to come
    pub long_step :
        (w : T)
        → o.outavail ≤ length i.bytes
        → o.outavail < count
        → Store.write target o.outdata (take o.outavail i.bytes) o.state ≡ some w
        → merge_loop source target (suc rounds) count indata outdata outavail s t
          ≡ merge_loop source target rounds
              (count - o.outavail)
              (drop o.outavail i.bytes)
              o.outdata
              0
              i.state
              w
    long_step w h k e =
        let longer : ltb (length i.bytes) o.outavail ≡ false = ground (arith, h) in
        let more : (count - o.outavail == 0) ≡ false = ground (arith, k) in
        round_step ∙ unfold copy_round in rw (longer, e, more) refl

    pub last_step :
        (w : T)
        → o.outavail ≤ length i.bytes
        → count ≤ o.outavail
        → Store.write target o.outdata (take o.outavail i.bytes) o.state ≡ some w
        → merge_loop source target (suc rounds) count indata outdata outavail s t
          ≡ some (i.state, w)
    last_step w h k e =
        let longer : ltb (length i.bytes) o.outavail ≡ false = ground (arith, h) in
        let done : (count - o.outavail == 0) ≡ true = ground (arith, k) in
        round_step ∙ unfold copy_round in rw (longer, e, done) refl
