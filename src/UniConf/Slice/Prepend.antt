-- ===== src/UniConf/Slice/Prepend.antt =====
-- What `prepend` writes.
use wvstreams.Prelude.{
  ◌>>=◌, ℕ, ◌+◌, ◌-◌, ◌≤◌, true, false, none, some, List, [], ◌∷◌, ◌++◌, append_assoc, length,
  length-append, take, take-append_length, ◌⊎◌, ◌≡◌, ◌≢◌, refl, sym, ap, ◌∙◌, arith, Bool-cases,
  inl, inr, leb, if◌then◌else◌, length-take,
}
use wvstreams.UniConf.Key.{Segment, Key, is_blank, collapse, nonblank, put_at}
use wvstreams.UniConf.Key.Paths.{IsPlain, nonblank-IsPlain}
use wvstreams.UniConf.Slice.{
  size, SegmentVector, Slice, key_of, collapse_slice, unique, replace, resize_shifted, place_all,
  prepend_slice,
}
use wvstreams.UniConf.Slice.Vector.{put_at-append}
use wvstreams.UniConf.Slice.Shift.{resize-Resized, resize_outside}
use wvstreams.UniConf.Slice.Append.{
  IsHeld, unique-IsHeld, unique_own, collapse_key, collapse-take, left_key, length_some,
}

place_step :
    (j : ℕ) (s : Segment) (ss : Key) (k : Slice) (w : List Segment)
    → is_blank s ≡ false
    → put_at (k.left + j) s k.segments.vec ≡ some w
    → (v : SegmentVector) × (v.vec ≡ w)
      × (place_all j (s ∷ ss) k
          ≡ place_all (j + 1) ss (record k { segments = v; right = k.right + 1 }))
unfolding place_all replace
place_step j s ss k w b h = (
  record {
    vec = w;
    used = if leb k.segments.used (k.left + j) then k.left + j + 1 else k.segments.used;
  },
  refl,
  rw (b, place_all) (rw h refl),
)

-- the path in the gap
record Placed (j : ℕ) (ss : Key) (k : Slice) (vec : List Segment) : Type 0 where
  result : Slice
  ran : place_all j ss k ≡ some result
  from_left : result.left ≡ k.left
  to_right : result.right ≡ k.right + length ss
  content : result.segments.vec ≡ vec

place_all-Placed :
    (ss : Key) (pre gap post : List Segment) (k : Slice)
    → IsPlain ss
    → k.left ≡ 0
    → length gap ≡ length ss
    → k.segments.vec ≡ pre ++ (gap ++ post)
    → Placed (length pre) ss k (pre ++ (ss ++ post))
place_all-Placed [] pre [] post k p z e h = record {
  result = k;
  ran = unfold place_all in refl;
  from_left = refl;
  to_right = omega arith;
  content = h;
}
place_all-Placed [] pre (g ∷ gap) post k p z e h = absurd (omega (arith, e))
place_all-Placed (s ∷ ss) pre [] post k p z e h = absurd (omega (arith, e))
place_all-Placed (s ∷ ss) pre (g ∷ gap) post k p z e h =
    let at : k.left + length pre ≡ length pre = omega (arith, z) in
    let put : put_at (k.left + length pre) s k.segments.vec ≡ some (pre ++ s ∷ (gap ++ post)) =
      rw (at, h) (put_at-append pre (gap ++ post) s g) in
    let (v, same, step) = place_step (length pre) s ss k (pre ++ s ∷ (gap ++ post)) p.0 put in
    let rest =
      place_all-Placed ss (pre ++ s ∷ []) gap post (record k { segments = v; right = k.right + 1 })
        p.1 z (omega (arith, e)) (same ∙ sym (append_assoc pre (s ∷ []) (gap ++ post))) in
    record {
      result = rest.result;
      ran =
          step
          ∙ ap (λ n. place_all n ss (record k { segments = v; right = k.right + 1 }))
              (sym (length-append {0} pre (s ∷ [])))
          ∙ rest.ran;
      from_left = rest.from_left;
      to_right = rest.to_right ∙ omega arith;
      content = rest.content ∙ append_assoc pre (s ∷ []) (ss ++ post);
    }

-- the vector is copied, or the key is all that is in use of it
abbrev pub IsWhole : Slice → Type 0
IsWhole k = (k.shared ≡ true) ⊎ ((k.left ≡ 0) × (k.right ≡ k.segments.used))

unique-IsWhole :
    (k : Slice) → IsWhole k → ((unique k).left ≡ 0) × ((unique k).right ≡ (unique k).segments.used)
unfolding unique
unique-IsWhole k (inl e) = rw e (refl, refl)
unique-IsWhole k (inr (z, u)) = elim (Bool-cases k.shared) [
  | inl b ↦ rw b (refl, refl)
  | inr b ↦ rw b (z, u)
]

-- `prepend` over its steps
prepend_runs :
    (key : Key) (k own w : Slice) (v : SegmentVector)
    → unique k ≡ own
    → resize_shifted
        (length (nonblank key) + own.right - own.left)
        (length (nonblank key))
        own.segments
      ≡ some v
    → place_all 0 key (record own { segments = v }) ≡ some w
    → prepend_slice key k ≡ some (collapse_slice w)
unfolding prepend_slice
prepend_runs key k own w v u r p = rw u (rw r (rw p refl))

front_part :
    (key held tail : Key) (n : ℕ)
    → n ≡ length key + length held
    → take n (key ++ (held ++ tail)) ≡ key ++ held
front_part key held tail n h =
    ap (take n) (sym (append_assoc key held tail))
    ∙ ap (λ m. take m ((key ++ held) ++ tail)) (h ∙ sym (length-append {0} key held))
    ∙ take-append_length (key ++ held) tail

prepend_own :
    (key : Key) (k own : Slice)
    → IsPlain key
    → unique k ≡ own
    → IsHeld own
    → own.left ≡ 0
    → own.right ≡ own.segments.used
    → (prepend_slice key k >>= λ k'. some (key_of k')) ≡ some (collapse (key ++ key_of own))
prepend_own key k own p u h z full =
    let held = take own.segments.used own.segments.vec in
    let long : length held ≡ own.segments.used =
      length-take own.segments.used own.segments.vec h.allocated in
    let names = nonblank-IsPlain key p in
    let resized = resize-Resized (length key) own.segments h.allocated in
    let asked : length key + own.right - own.left ≡ length key + own.segments.used =
      omega (arith, z, full) in
    let vec : SegmentVector = record {
      vec = resized.gap ++ (held ++ resized.tail);
      used = own.segments.used + length key;
    } in
    let placed =
      place_all-Placed key [] resized.gap (held ++ resized.tail) (record own { segments = vec }) p z
        resized.size_gap refl in
    let w = placed.result in
    let size_all : w.right ≡ length key + length held =
      omega (arith, placed.to_right, long, full) in
    let bound : w.right ≤ length w.segments.vec = omega (
      arith,
      size_all,
      ap length placed.content,
      length-append {0} key (held ++ resized.tail),
      length-append {0} held resized.tail,
    ) in
    let whole : key_of own ≡ held = left_key own z ∙ ap (λ n. take n own.segments.vec) full in
    rw
      (prepend_runs key k own w vec u
        (rw names (ap (λ n. resize_shifted n (length key) own.segments) asked ∙ resized.ran))
        placed.ran)
      (ap some (
        collapse_key w (placed.from_left ∙ z)
        ∙ collapse-take w.right w.segments.vec bound
        ∙ ap collapse (
            ap (take w.right) placed.content
            ∙ front_part key held resized.tail w.right size_all
            ∙ ap (◌++◌ key) (sym whole))))

-- `prepend` of a path with no blank segment puts its segments in front of those of the key, with
-- no write outside the vector, whether the vector is large enough or a new one is taken, if the
-- vector is shared, and so copied, or the key is all that is in use of it.
pub prepend_slice-append :
    (key : Key) (k : Slice)
    → IsPlain key
    → IsHeld k
    → IsWhole k
    → (prepend_slice key k >>= λ k'. some (key_of k')) ≡ some (collapse (key ++ key_of k))
prepend_slice-append key k p h c =
    let (held, same) = unique-IsHeld k h in
    let (z, full) = unique-IsWhole k c in
    prepend_own key k (unique k) p refl held z full
    ∙ ap some (ap (λ this. collapse (key ++ this)) same)

-- A key from which a segment or more was popped, of which no other key holds the vector, and which reaches to
-- the end of it: prepending no more names than were popped writes behind the vector.
prepend_slice_outside :
    (key : Key) (k : Slice)
    → IsPlain key
    → key ≢ []
    → k.shared ≡ false
    → IsHeld k
    → length key ≤ k.left
    → k.right ≡ size k.segments
    → 1 ≤ k.right
    → prepend_slice key k ≡ none
unfolding prepend_slice
prepend_slice_outside key k p ne own h popped full some_segment =
    let used : k.segments.used ≡ size k.segments = omega (arith, full, h.filled, h.allocated) in
    let fits : length key + k.right - k.left ≤ size k.segments =
      omega (arith, popped, full, h.ordered) in
    rw (unique_own k own, nonblank-IsPlain key p)
      (rw
        (resize_outside (length key + k.right - k.left) (length key) k.segments fits used
          (omega (arith, used, full, some_segment)) (length_some key ne))
        refl)
