-- ===== src/UniConf/Slice/Vector.antt =====
-- The writes to the vector, and its resizing.
use wvstreams.Prelude.{
  length-take, take-append, take-take, ◌>>=◌, ℕ, zero, suc, ◌+◌, ◌-◌, ◌≤◌, ◌<◌, none, some, List,
  [], ◌∷◌, ◌++◌, append-nil, append_assoc, length, length-append, take, leb, if◌then◌else◌, ◌≡◌,
  refl, sym, ap, ◌∙◌, arith, Bool-cases, Option-cases, inl, inr,
}
use wvstreams.UniConf.Key.{blanks, put_at, Segment, Key}
use wvstreams.UniConf.Slice.{SegmentVector, size, resize, replace, Slice, put_all}

pub put_at_outside : (i : ℕ) (s : Segment) (v : List Segment) → length v ≤ i → put_at i s v ≡ none
put_at_outside i s [] h = refl
put_at_outside zero s (t ∷ v) h = absurd (omega (arith, h))
put_at_outside (suc i) s (t ∷ v) h = rw (put_at_outside i s v (omega (arith, h)))

pub put_at-append :
    (pre rest : List Segment) (s t : Segment)
    → put_at (length pre) s (pre ++ t ∷ rest) ≡ some (pre ++ s ∷ rest)
put_at-append [] rest s t = refl
put_at-append (x ∷ pre) rest s t = rw (put_at-append pre rest s t)

-- a write inside keeps what stands before it
pub put_at_inside :
    (i : ℕ) (s : Segment) (v : List Segment)
    → i < length v
    → (w : List Segment) × (put_at i s v ≡ some w)
      × (length w ≡ length v)
      × (take (suc i) w ≡ take i v ++ s ∷ [])
put_at_inside i s [] h = absurd (omega (arith, h))
put_at_inside zero s (t ∷ v) h = (s ∷ v, refl, refl, refl)
put_at_inside (suc i) s (t ∷ v) h =
    let (w, e, l, p) = put_at_inside i s v (omega (arith, h)) in
    (t ∷ w, rw e, ap suc l, ap (◌∷◌ t) p)

pub put_at-some : (i : ℕ) (s : Segment) (v w : List Segment) → put_at i s v ≡ some w → i < length v
put_at-some i s [] w h = cc
put_at-some zero s (t ∷ v) w h = omega arith
put_at-some (suc i) s (t ∷ v) w h = elim (Option-cases (put_at i s v)) [
  | inl e ↦ let bad : none ≡ some w = ap (λ o. o >>= λ ts. some (t ∷ ts)) (sym e) ∙ h in cc
  | inr (u, e) ↦ omega (arith, put_at-some i s v u e)
]

abbrev after_put : Slice → List Segment → Slice
after_put k w = record k {
  segments = record {
    vec = w;
    used = if leb k.segments.used k.right then k.right + 1 else k.segments.used;
  };
  right = k.right + 1;
}

pub put_step :
    (s : Segment) (ss : Key) (k : Slice) (w : List Segment)
    → put_at k.right s k.segments.vec ≡ some w
    → put_all (s ∷ ss) k ≡ put_all ss (after_put k w)
unfolding put_all replace
put_step s ss k w h = rw h

pub put_stop :
    (s : Segment) (ss : Key) (k : Slice)
    → put_at k.right s k.segments.vec ≡ none
    → put_all (s ∷ ss) k ≡ none
unfolding put_all replace
put_stop s ss k h = rw h

pub put_all_outside :
    (ss : Key) (k : Slice)
    → size k.segments < k.right + length ss
    → k.right ≤ size k.segments
    → put_all ss k ≡ none
put_all_outside [] k h r = absurd (omega (arith, h, r))
put_all_outside (s ∷ ss) k h r = elim (Option-cases (put_at k.right s k.segments.vec)) [
  | inl e ↦ put_stop s ss k e
  | inr (w, e) ↦
      let inside = put_at-some k.right s k.segments.vec w e in
      let (w', e', l, p) = put_at_inside k.right s k.segments.vec inside in
      put_step s ss k w' e'
      ∙ put_all_outside ss (after_put k w') (omega (arith, l, h)) (omega (arith, l, inside))
]

-- with room for all the segments they stand behind what was there
pub record Extended (ss : Key) (k : Slice) : Type 0 where
  pub result : Slice
  pub ran : put_all ss k ≡ some result
  pub from_left : result.left ≡ k.left
  pub inside : k.right + length ss ≤ size result.segments
  pub to_right : result.right ≡ k.right + length ss
  pub content : take (k.right + length ss) result.segments.vec ≡ take k.right k.segments.vec ++ ss

pub put_all-Extended :
    (ss : Key) (k : Slice) → k.right + length ss ≤ size k.segments → Extended ss k
put_all-Extended [] k h = record {
  result = k;
  ran = unfold put_all in refl;
  from_left = refl;
  inside = h;
  to_right = omega arith;
  content =
      ap (λ n. take n k.segments.vec) (omega arith)
      ∙ sym (append-nil (take k.right k.segments.vec));
}
put_all-Extended (s ∷ ss) k h =
    let (w, e, l, p) = put_at_inside k.right s k.segments.vec (omega (arith, h)) in
    let rest = put_all-Extended ss (after_put k w) (omega (arith, l, h)) in
    let grown : k.right + 1 ≡ suc k.right = omega arith in
    record {
      result = rest.result;
      ran = put_step s ss k w e ∙ rest.ran;
      from_left = rest.from_left;
      inside = omega (arith, rest.inside);
      to_right = rest.to_right ∙ omega arith;
      content =
          ap (λ n. take n rest.result.segments.vec) (omega arith)
          ∙ rest.content
          ∙ ap (◌++ ss) (rw grown p)
          ∙ append_assoc (take k.right k.segments.vec) (s ∷ []) ss;
    }

pub length-blanks : (n : ℕ) → length (blanks n) ≡ n
length-blanks zero = refl
length-blanks (suc n) = ap suc (length-blanks n)

pub resize-size : (n : ℕ) (v : SegmentVector) → v.used ≤ size v → n ≤ size (resize n v)
unfolding resize
resize-size n v h = elim (Bool-cases (leb n (size v))) [
  | inl e ↦ rw e (ground arith)
  | inr e ↦ rw e (
      let full = length-take v.used v.vec h in
      let more = length-append {0} (take v.used v.vec) (blanks (n - length (take v.used v.vec))) in
      omega (arith, more, length-blanks (n - length (take v.used v.vec))))
]

pub resize-bounds :
    (n b : ℕ) (v : SegmentVector)
    → v.used ≤ size v
    → size v < b
    → n < b
    → (size (resize n v) < b) × (size v ≤ size (resize n v))
unfolding resize
resize-bounds n b v h lt lt' = elim (Bool-cases (leb n (size v))) [
  | inl e ↦ rw e (lt, omega arith)
  | inr e ↦ rw e (
      let full = length-take v.used v.vec h in
      let more = length-append {0} (take v.used v.vec) (blanks (n - length (take v.used v.vec))) in
      let blank = length-blanks (n - length (take v.used v.vec)) in
      let big : size v < n = ground arith in
      (omega (arith, more, full, blank, h, big, lt'), omega (arith, more, full, blank, h, big)))
]

pub resize-content :
    (n r : ℕ) (v : SegmentVector)
    → r ≤ v.used
    → v.used ≤ size v
    → take r (resize n v).vec ≡ take r v.vec
unfolding resize
resize-content n r v h u = elim (Bool-cases (leb n (size v))) [
  | inl e ↦ rw e
  | inr e ↦ rw e (
      take-append r (take v.used v.vec) (blanks (n - length (take v.used v.vec)))
        (omega (arith, length-take v.used v.vec u))
      ∙ take-take r v.used v.vec h)
]
