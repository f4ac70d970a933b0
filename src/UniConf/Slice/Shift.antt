-- ===== src/UniConf/Slice/Shift.antt =====
-- What moving the segments up does to the vector.
use wvstreams.Prelude.{
  ℕ, zero, suc, ◌+◌, ◌-◌, ◌≤◌, true, false, none, some, List, [], ◌∷◌, ◌++◌, append_assoc, length,
  length-append, get_elem?, get_elem?-append, take, drop, take_rest, length-take, length-drop, leb,
  ◌≡◌, refl, sym, ap, ◌∙◌, arith, Bool-cases, Option-cases, inl, inr,
}
use wvstreams.UniConf.Key.{blanks, put_at, Segment}
use wvstreams.UniConf.Slice.{SegmentVector, size, min, shift_loop, resize_shifted}
use wvstreams.UniConf.Slice.Vector.{put_at-append, put_at_outside, length-blanks}

-- a list that is not empty, from its last element
record Ended (v : List Segment) (n : ℕ) : Type 0 where
  front : List Segment
  end : Segment
  whole : v ≡ front ++ end ∷ []
  size_front : length front ≡ n

ended : (v : List Segment) (n : ℕ) → length v ≡ suc n → Ended v n
ended [] n h = absurd (omega (arith, h))
ended (x ∷ []) n h = record { front = []; end = x; whole = refl; size_front = omega (arith, h) }
ended (x ∷ y ∷ v) zero h = absurd (omega (arith, h))
ended (x ∷ y ∷ v) (suc n) h =
    let rest = ended (y ∷ v) n (omega (arith, h)) in
    record {
      front = x ∷ rest.front;
      end = rest.end;
      whole = ap (◌∷◌ x) rest.whole;
      size_front = ap suc rest.size_front;
    }

shift_step :
    (i shift : ℕ) (vec vec' : List Segment) (s : Segment)
    → get_elem? vec i ≡ some s
    → put_at (i + shift) s vec ≡ some vec'
    → shift_loop (suc i) shift vec ≡ shift_loop i shift vec'
unfolding shift_loop
shift_step i shift vec vec' s g p = rw g (rw p refl)

-- the free places behind the segments come to stand in front of them
record Shifted (i shift : ℕ) (vec moved post : List Segment) : Type 0 where
  gap : List Segment
  size_gap : length gap ≡ shift
  ran : shift_loop i shift vec ≡ some (gap ++ (moved ++ post))

shift_loop-Shifted :
    (i shift : ℕ) (pre mid post : List Segment)
    → length pre ≡ i
    → length mid ≡ shift
    → Shifted i shift (pre ++ (mid ++ post)) pre post
shift_loop-Shifted zero shift [] mid post h e = record {
  gap = mid;
  size_gap = e;
  ran = unfold shift_loop in refl;
}
shift_loop-Shifted zero shift (x ∷ pre) mid post h e = absurd (omega (arith, h))
shift_loop-Shifted (suc i) shift pre mid post h e =
    let last = ended pre i h in
    let turned = ended (last.end ∷ mid) shift (ap suc e) in
    let rest =
      shift_loop-Shifted i shift last.front turned.front (last.end ∷ post) last.size_front
        turned.size_front in
    let apart : pre ++ (mid ++ post) ≡ last.front ++ (last.end ∷ (mid ++ post)) =
      ap (λ v. v ++ (mid ++ post)) last.whole
      ∙ append_assoc last.front (last.end ∷ []) (mid ++ post) in
    let behind : pre ++ (mid ++ post) ≡ (last.front ++ turned.front) ++ turned.end ∷ post =
      apart
      ∙ ap (◌++◌ last.front)
          (ap (λ v. v ++ post) turned.whole ∙ append_assoc turned.front (turned.end ∷ []) post)
      ∙ sym (append_assoc last.front turned.front (turned.end ∷ post)) in
    let place : i + shift ≡ length (last.front ++ turned.front) =
      omega
        (arith, last.size_front, turned.size_front, length-append {0} last.front turned.front) in
    let got : get_elem? (pre ++ (mid ++ post)) i ≡ some last.end =
      ap (λ v. get_elem? v i) apart
      ∙ ap (get_elem? (last.front ++ (last.end ∷ (mid ++ post)))) (sym last.size_front)
      ∙ get_elem?-append last.front last.end (mid ++ post) in
    let put : put_at (i + shift) last.end (pre ++ (mid ++ post))
        ≡ some (last.front ++ (turned.front ++ last.end ∷ post)) =
      ap (put_at (i + shift) last.end) behind
      ∙ ap (λ n. put_at n last.end ((last.front ++ turned.front) ++ turned.end ∷ post)) place
      ∙ put_at-append (last.front ++ turned.front) post last.end turned.end
      ∙ ap some (append_assoc last.front turned.front (last.end ∷ post)) in
    let moved : last.front ++ (last.end ∷ post) ≡ pre ++ post =
      sym (ap (λ v. v ++ post) last.whole ∙ append_assoc last.front (last.end ∷ []) post) in
    record {
      gap = rest.gap;
      size_gap = rest.size_gap;
      ran =
          shift_step i shift (pre ++ (mid ++ post))
            (last.front ++ (turned.front ++ last.end ∷ post)) last.end got put
          ∙ rest.ran
          ∙ ap (λ v. some (rest.gap ++ v)) moved;
    }

-- the vector has a gap in front of what was in use
pub record Resized (shift : ℕ) (v : SegmentVector) : Type 0 where
  pub gap : List Segment
  pub tail : List Segment
  pub size_gap : length gap ≡ shift
  pub ran :
      resize_shifted (shift + v.used) shift v
      ≡ some (record { vec = gap ++ (take v.used v.vec ++ tail); used = v.used + shift })

shift_inside :
    (shift : ℕ) (v : SegmentVector) (moved : List Segment)
    → leb (shift + v.used) (size v) ≡ true
    → shift_loop v.used shift v.vec ≡ some moved
    → resize_shifted (shift + v.used) shift v ≡ some (record { vec = moved; used = v.used + shift })
unfolding resize_shifted
shift_inside shift v moved e ran = rw e (rw ran refl)

shift_outside :
    (shift : ℕ) (v : SegmentVector)
    → leb (shift + v.used) (size v) ≡ false
    → v.used ≤ size v
    → resize_shifted (shift + v.used) shift v
      ≡ some (record {
        vec = blanks shift ++ (take v.used v.vec ++ blanks (shift + v.used - shift - v.used));
        used = v.used + shift;
      })
unfolding resize_shifted
shift_outside shift v e h =
    let same : min (min (shift + v.used - shift) (size v)) v.used ≡ v.used = ground arith in
    rw e (rw same refl)

pub resize-Resized : (shift : ℕ) (v : SegmentVector) → v.used ≤ size v → Resized shift v
resize-Resized shift v h = elim (Bool-cases (leb (shift + v.used) (size v))) [
  | inr e ↦ record {
    gap = blanks shift;
    tail = blanks (shift + v.used - shift - v.used);
    size_gap = length-blanks shift;
    ran = shift_outside shift v e h;
  }
  | inl e ↦
      let free = drop v.used v.vec in
      let room : shift ≤ length free = ground (arith, length-drop v.used v.vec, e) in
      let loop =
        shift_loop-Shifted v.used shift (take v.used v.vec) (take shift free) (drop shift free)
          (length-take v.used v.vec h) (length-take shift free room) in
      let whole : v.vec ≡ take v.used v.vec ++ (take shift free ++ drop shift free) =
        sym (take_rest v.used v.vec) ∙ ap (◌++◌ (take v.used v.vec)) (sym (take_rest shift free)) in
      record {
        gap = loop.gap;
        tail = drop shift free;
        size_gap = loop.size_gap;
        ran =
            shift_inside shift v (loop.gap ++ (take v.used v.vec ++ drop shift free)) e
              (ap (shift_loop v.used shift) whole ∙ loop.ran);
      }
]

-- the last segment in use would come to stand behind the vector
shift_loop_outside :
    (i shift : ℕ) (vec : List Segment)
    → length vec ≤ i + shift
    → shift_loop (suc i) shift vec ≡ none
unfolding shift_loop
shift_loop_outside i shift vec h = elim (Option-cases (get_elem? vec i)) [
  | inl e ↦ rw e refl
  | inr (s, e) ↦ rw e (rw (put_at_outside (i + shift) s vec h) refl)
]

loop_outside :
    (used shift : ℕ) (vec : List Segment)
    → 1 ≤ used
    → 1 ≤ shift
    → used ≡ length vec
    → shift_loop used shift vec ≡ none
loop_outside zero shift vec a b h = absurd (omega (arith, a))
loop_outside (suc i) shift vec a b h = shift_loop_outside i shift vec (omega (arith, h, b))

pub resize_outside :
    (n shift : ℕ) (v : SegmentVector)
    → n ≤ size v
    → v.used ≡ size v
    → 1 ≤ v.used
    → 1 ≤ shift
    → resize_shifted n shift v ≡ none
unfolding resize_shifted
resize_outside n shift v small full some_segment up =
    let inside : leb n (size v) ≡ true = ground arith in
    rw inside (rw (loop_outside v.used shift v.vec some_segment up full) refl)
