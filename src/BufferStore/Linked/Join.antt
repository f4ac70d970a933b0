-- ===== src/BufferStore/Linked/Join.antt =====
-- `coalesce` at the first store: the bytes stay the same, and the first store has as many as asked for.
use wvstreams.Prelude.{
  ◌>>=◌, ℕ, zero, suc, ◌+◌, ◌-◌, ◌≤◌, ◌<◌, Option, some, List, [], ◌∷◌, ◌++◌, append_assoc, Bytes,
  length, length-append, take, drop, leb, ◌==◌, ◌≡◌, refl, sym, ap, ◌∙◌, arith, Bool-cases, inl,
  inr, drop-append, take_rest, length-take, length-drop,
}
use native.Mathlib.Nat.{mod-lt}
use wvstreams.BufferStore.Base.{at_most}
use wvstreams.BufferStore.Base.Puts.{at_most_left}
use wvstreams.BufferStore.Circular
use wvstreams.BufferStore.Circular.{WvCircularBufStore, xsize}
use wvstreams.BufferStore.Circular.State.{IsValid, queue, length-queue}
use wvstreams.BufferStore.Circular.Reads.{get_lem, unget_lem}
use wvstreams.BufferStore.Linked.{
  WvLinkedBufferStore, Sizes, roundup, zeros, new_size, newbuffer, must_skip, coalesce_loop,
  coalesce,
}
use wvstreams.BufferStore.Linked.Coalesce.{
  queues, AllValid, next_valid, Coalesced, coalesce_loop_lem,
}

length-zeros : (n : ℕ) → length (zeros n) ≡ n
length-zeros zero = refl
length-zeros (suc n) = ap suc (length-zeros n)

roundup_bound : (value boundary : ℕ) → 1 ≤ boundary → value ≤ roundup value boundary
unfolding roundup
roundup_bound value boundary h = ground (arith, mod-lt value {m = boundary} h)

new_size_bound : (sizes : Sizes) (used minsize : ℕ) → minsize ≤ new_size sizes used minsize
unfolding new_size
new_size_bound sizes used minsize = ground arith

pub newbuffer_lem :
    (sizes : Sizes) (used minsize : ℕ)
    → 1 ≤ sizes.granularity
    → 1 ≤ minsize
    → IsValid (newbuffer sizes used minsize)
      × (queue (newbuffer sizes used minsize) ≡ [])
      × (minsize ≤ Circular.free (newbuffer sizes used minsize))
unfolding newbuffer
newbuffer_lem sizes used minsize g h =
    let size = length-zeros (roundup (new_size sizes used minsize) sizes.granularity) in
    let room = roundup_bound (new_size sizes used minsize) sizes.granularity g in
    let enough = new_size_bound sizes used minsize in
    (
      record {
        head_inside = omega (arith, size, room, enough, h);
        used_known = omega arith;
        init_fits = omega arith;
      },
      refl,
      omega (arith, size, room, enough),
    )

-- the first store and the others, which hold the same bytes as before
pub record Joined (count : ℕ) (bytes : Bytes)
    (o : Option (WvCircularBufStore × List WvCircularBufStore)) : Type 0 where
  pub first : WvCircularBufStore
  pub rest : List WvCircularBufStore
  pub ran : o ≡ some (first, rest)
  pub first_valid : IsValid first
  pub rest_valid : AllValid rest
  pub enough : count ≤ first.totalused
  pub same_bytes : queue first ++ queues rest ≡ bytes

-- There is room in the first store.
in_place :
    (buf : WvCircularBufStore) (count : ℕ) (rest : List WvCircularBufStore)
    → IsValid buf
    → buf.totalused < count
    → Coalesced buf (count - buf.totalused) rest (coalesce_loop buf (count - buf.totalused) rest)
    → count ≤ length (queue buf ++ queues rest)
    → Joined count (queue buf ++ queues rest) (coalesce_loop buf (count - buf.totalused) rest)
in_place buf count rest v lt c e =
    let n : ℕ = count - buf.totalused in
    record {
      first = c.first;
      rest = c.rest;
      ran = c.ran;
      first_valid = c.first_valid;
      rest_valid = c.rest_valid;
      enough = omega (
        arith,
        lt,
        e,
        length-queue c.first c.first_valid,
        ap length c.first_queue,
        length-append {0} (queue buf) (take n (queues rest)),
        length-append {0} (queue buf) (queues rest),
        length-queue buf v,
        length-take n (queues rest)
            (omega (arith, e, length-append {0} (queue buf) (queues rest), length-queue buf v)),
      );
      same_bytes =
          rw (c.first_queue, c.rest_queue)
            (append_assoc (queue buf) (take n (queues rest)) (drop n (queues rest))
              ∙ ap (λ q. queue buf ++ q) (take_rest n (queues rest)));
    }

-- All goes into a new store, and what was given back is skipped.
skipped :
    (fresh : WvCircularBufStore) (count mustskip : ℕ) (bytes : Bytes)
    (list : List WvCircularBufStore)
    → queue fresh ≡ []
    → drop mustskip (queues list) ≡ bytes
    → count + mustskip ≤ length (queues list)
    → Coalesced fresh (count + mustskip) list (coalesce_loop fresh (count + mustskip) list)
    → Joined count bytes (
        coalesce_loop fresh (count + mustskip) list >>= λ r.
        Circular.get mustskip r.0 >>= λ g. some (g.1, r.1))
skipped fresh count mustskip bytes list e same fits c =
    let n : ℕ = count + mustskip in
    let all : queue c.first ≡ take n (queues list) =
      c.first_queue ∙ ap (λ q. q ++ take n (queues list)) e in
    let size : c.first.totalused ≡ n =
      sym (length-queue c.first c.first_valid) ∙ ap length all ∙ length-take n (queues list) fits in
    let g = get_lem c.first mustskip c.first_valid (omega (arith, size)) in
    let left : queue g.state ≡ drop mustskip (take n (queues list)) =
      g.rest ∙ ap (drop mustskip) all in
    record {
      first = g.state;
      rest = c.rest;
      ran = rw (c.ran, g.ran) refl;
      first_valid = g.valid;
      rest_valid = c.rest_valid;
      enough = omega (
        arith,
        sym (length-queue g.state g.valid) ∙ ap length left,
        length-drop mustskip (take n (queues list)),
        length-take n (queues list) fits,
      );
      same_bytes =
          rw (left, c.rest_queue)
            (sym (
                drop-append mustskip (take n (queues list)) (drop n (queues list))
                  (omega (arith, length-take n (queues list) fits)))
              ∙ ap (drop mustskip) (take_rest n (queues list))
              ∙ same);
    }

-- The third way of `coalesce`, on a first store that has given back what it can.
through_new :
    (sizes : Sizes) (used count mustskip : ℕ) (buf back : WvCircularBufStore)
    (rest : List WvCircularBufStore)
    → 1 ≤ sizes.granularity
    → 1 ≤ count
    → IsValid buf
    → IsValid back
    → AllValid rest
    → back.totalused ≡ buf.totalused + mustskip
    → drop mustskip (queue back) ≡ queue buf
    → count ≤ length (queue buf ++ queues rest)
    → Joined count (queue buf ++ queues rest) (
        coalesce_loop (newbuffer sizes used (count + mustskip)) (count + mustskip) (back ∷ rest)
        >>= λ r. Circular.get mustskip r.0 >>= λ g. some (g.1, r.1))
through_new sizes used count mustskip buf back rest g h v w r longer same e =
    let (valid, nothing, room) = newbuffer_lem sizes used (count + mustskip) g (omega (arith, h)) in
    let fits : count + mustskip ≤ length (queue back ++ queues rest) = omega (
      arith,
      e,
      longer,
      length-append {0} (queue buf) (queues rest),
      length-append {0} (queue back) (queues rest),
      length-queue buf v,
      length-queue back w,
    ) in
    skipped (newbuffer sizes used (count + mustskip)) count mustskip (queue buf ++ queues rest)
      (back ∷ rest) nothing
      (drop-append mustskip (queue back) (queues rest) (omega (arith, longer, length-queue back w))
        ∙ ap (λ q. q ++ queues rest) same)
      fits
      (coalesce_loop_lem (newbuffer sizes used (count + mustskip)) (count + mustskip) (back ∷ rest)
        valid (next_valid w r) (omega (arith, h)) room fits)

pub coalesce_lem :
    (sizes : Sizes) (s : WvLinkedBufferStore) (count : ℕ) (buf : WvCircularBufStore)
    (rest : List WvCircularBufStore)
    → 1 ≤ sizes.granularity
    → 1 ≤ count
    → IsValid buf
    → AllValid rest
    → count ≤ length (queue buf ++ queues rest)
    → Joined count (queue buf ++ queues rest) (coalesce sizes s count buf rest)
unfolding coalesce must_skip
coalesce_lem sizes s count buf rest g h v r e = elim (Bool-cases (leb count buf.totalused)) [
  | inl a ↦ rw a (record {
    first = buf;
    rest = rest;
    ran = refl;
    first_valid = v;
    rest_valid = r;
    enough = ground (arith, a);
    same_bytes = refl;
  })
  | inr a ↦
      let lt : buf.totalused < count = ground (arith, a) in
      elim (Bool-cases (leb (count - buf.totalused) (Circular.free buf))) [
        | inl b ↦
            rw (a, b)
              (in_place buf count rest v lt
                (coalesce_loop_lem buf (count - buf.totalused) rest v r (omega (arith, lt))
                  (ground (arith, b))
                  (omega (
                    arith,
                    lt,
                    e,
                    length-append {0} (queue buf) (queues rest),
                    length-queue buf v,
                  )))
                e)
        | inr b ↦ elim (Bool-cases (s.totalused == 0)) [
          | inl z ↦
              rw (a, b, z)
                (through_new sizes s.totalused count 0 buf buf rest g h v v r (omega arith) refl e)
          | inr z ↦
              let m : ℕ = at_most (Circular.ungettable buf) s.maxungettable in
              let (back, ran, valid, longer, same) =
                unget_lem buf m v (at_most_left (Circular.ungettable buf) s.maxungettable) in
              rw (a, b, z, ran)
                (through_new sizes s.totalused count m buf back rest g h v valid r longer same e)
        ]
      ]
]
