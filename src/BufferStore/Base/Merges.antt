-- ===== src/BufferStore/Base/Merges.antt =====
-- basicmerge moves bytes from one store's queue to the other's, over any two stores that keep the contract.
pub mod Refills
pub mod Steps
pub mod Rounds
use wvstreams.Prelude.{
  ◌>>=◌, ℕ, zero, suc, ◌+◌, ◌-◌, ◌≤◌, ◌<◌, Bool, true, false, Option, none, some, List, [], ◌∷◌,
  ◌++◌, append_assoc, append-nil, Bytes, length, length-append, take, drop, take-length,
  drop-length, ltb, ◌==◌, if◌then◌else◌, ◌≡◌, refl, sym, subst, ap, ◌∙◌, arith, Bool-cases, inl,
  inr, length-take, length-drop, take_rest, take_plus, drop-drop, take-append, drop-append,
  take-append_length, drop-append_length,
}
use wvstreams.BufferStore.Base.{
  Store, at_most, refill_in, refill_out, copy_round, merge_loop, basicmerge,
}
use wvstreams.BufferStore.Base.Laws.{Contract}
use wvstreams.BufferStore.Base.Merges.Rounds.{Moves, Ready, Loops, round-Moves}
use wvstreams.BufferStore.Base.Merges.Refills.{
  RefillsIn, Allocated, RefillsOut, length_zero, refill_in_lem, refill_out_lem,
}

no_tail : (n : ℕ) → 0 + n ≡ n
no_tail n = omega arith

module _ {S T : Type 0} (source : Store S) (target : Store T) (c : Contract source)
    (d : Contract target) where
  loops : (rounds : ℕ) → Loops source target c d rounds
  loops zero count indata outdata outavail s t front junk h r =
      absurd (omega (arith, h, r.some_left))
  loops (suc rounds) count indata outdata outavail s t front junk h r =
      let i =
        refill_in_lem source c count indata s r.source_valid r.some_left r.in_bound r.in_enough in
      let o =
        refill_out_lem target d count outdata outavail t front junk r.some_left r.out_bound
          r.allocated r.out_enough in
      let enough : count ≤ length i.bytes + Store.used source i.state = omega (
        arith,
        r.in_enough,
        ap length i.same_pending,
        length-append {0} i.bytes (c.queue i.state),
        length-append {0} indata (c.queue s),
        c.length_queue i.state i.valid,
        c.length_queue s r.source_valid,
      ) in
      subst
        (λ p.
          Moves source target c d (outavail + Store.free target t) count p front
            (merge_loop source target (suc rounds) count indata outdata outavail s t))
        i.same_pending
        (round-Moves source target c d rounds count indata outdata outavail s t front i o
          (loops rounds) h enough)

  pub basicmerge_lem :
      (count : ℕ) (s : S) (t : T)
      → c.IsValid s
      → d.IsValid t
      → count ≤ Store.used source s
      → count ≤ Store.free target t
      → Moves source target c d
          (Store.free target t)
          count
          (c.queue s)
          (d.queue t)
          (basicmerge source target count s t)
  unfolding basicmerge
  basicmerge_lem count s t v w h k = elim (Bool-cases (count == 0)) [
    | inl e ↦
        let nothing : count ≡ 0 = ground (arith, e) in
        rw (e, nothing)
          (record {
            left = s;
            filled = t;
            ran = refl;
            left_valid = v;
            filled_valid = w;
            left_queue = refl;
            filled_queue = sym (append-nil (d.queue t));
            less_free = omega arith;
          })
    | inr e ↦ rw e (
        subst
          (λ room.
            Moves source target c d room count (c.queue s) (d.queue t)
              (merge_loop source target count count [] 0 0 s t))
          (no_tail (Store.free target t))
          (loops count count [] 0 0 s t (d.queue t) [] (omega arith) (record {
            source_valid = v;
            some_left = ground (arith, e);
            in_bound = omega arith;
            out_bound = omega arith;
            allocated = record {
              valid = w;
              size = refl;
              stands = sym (append-nil (d.queue t));
              tail = λ l. absurd (omega (arith, l));
            };
            in_enough = omega (arith, h);
            out_enough = omega (arith, k);
          })))
  ]
