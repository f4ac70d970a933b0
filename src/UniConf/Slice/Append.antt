-- ===== src/UniConf/Slice/Append.antt =====
-- What `append` writes.
use wvstreams.Prelude.{
  length-take, length-drop, take-take, ◌>>=◌, ℕ, zero, suc, ◌+◌, ◌-◌, ◌≤◌, Bool, true, false, ◌&&◌,
  ◌||◌, ◌≢◌, none, some, List, [], ◌∷◌, ◌++◌, append-nil, length, length-append, take, drop, ◌==◌,
  get_or, if◌then◌else◌, ◌⊎◌, ◌≡◌, refl, sym, ap, ◌∙◌, arith, Bool-cases, inl, inr,
}
use wvstreams.UniConf.Key.{Segment, Key, is_blank, collapse, trailing, nonblank}
use wvstreams.UniConf.Key.Paths.{IsPlain, nonblank-IsPlain, no_blank_end}
use wvstreams.UniConf.Slice.{
  empty_slice, size, Slice, key_of, collapse_slice, unique, put_all, room_for, append_slice,
}
use wvstreams.UniConf.Slice.Vector.{
  put_all_outside, put_all-Extended, resize-size, resize-bounds, resize-content,
}

-- the part of the vector that is in use holds the key
pub record IsHeld (k : Slice) : Type 0 where
  pub ordered : k.left ≤ k.right
  pub filled : k.right ≤ k.segments.used
  pub allocated : k.segments.used ≤ size k.segments

key_if :
    (b : Bool) (k : Slice) → key_of (if b then empty_slice else k) ≡ (if b then [] else key_of k)
key_if true k = refl
key_if false k = refl

pub collapse_key :
    (k : Slice)
    → k.left ≡ 0
    → key_of (collapse_slice k) ≡ (
        if (k.right == 1 && is_blank (get_or k.segments.vec (k.right - 1) [])) || k.right == 0
        then []
        else take k.right k.segments.vec)
unfolding collapse_slice
collapse_key k h =
    let whole : k.right - 0 ≡ k.right = omega arith in
    key_if
      ((k.right - k.left == 1 && is_blank (get_or k.segments.vec (k.right - 1) []))
        || k.right == k.left)
      k
    ∙ rw (h, whole)

two_more : (n : ℕ) → ((suc (suc n) == 1) ≡ false) × ((suc (suc n) == 0) ≡ false)
two_more n = (ground arith, ground arith)

pub collapse-take :
    (n : ℕ) (v : List Segment)
    → n ≤ length v
    → (if (n == 1 && is_blank (get_or v (n - 1) [])) || n == 0 then [] else take n v)
      ≡ collapse (take n v)
unfolding collapse
collapse-take zero v h = refl
collapse-take (suc n) [] h = absurd (omega (arith, h))
collapse-take (suc zero) (s ∷ v) h = elim (Bool-cases (is_blank s)) [ inl e ↦ rw e | inr e ↦ rw e ]
collapse-take (suc (suc n)) (s ∷ []) h = absurd (omega (arith, h))
collapse-take (suc (suc n)) (s ∷ t ∷ v) h = rw ((two_more n).0, (two_more n).1)

pub unique-IsHeld : (k : Slice) → IsHeld k → IsHeld (unique k) × (key_of (unique k) ≡ key_of k)
unfolding unique
unique-IsHeld k h = elim (Bool-cases k.shared) [
  | inl e ↦
      let long : length (key_of k) ≡ k.right - k.left =
        length-take (k.right - k.left) (drop k.left k.segments.vec)
          (omega (arith, length-drop k.left k.segments.vec, h.filled, h.allocated)) in
      rw e (
        record { ordered = omega arith; filled = omega arith; allocated = omega (arith, long) },
        take-take (k.right - k.left - 0) (k.right - k.left) (drop k.left k.segments.vec)
              (omega arith)
            ∙ ap (λ n. take n (drop k.left k.segments.vec)) (omega arith),
      )
  | inr e ↦ rw e (record { ordered = h.ordered; filled = h.filled; allocated = h.allocated }, refl)
]

pub unique_own : (k : Slice) → k.shared ≡ false → unique k ≡ k
unfolding unique
unique_own k h = simp h refl

pub length_some : (k : Key) → k ≢ [] → 1 ≤ length k
length_some [] h = absurd (h refl)
length_some (s ∷ k) h = omega arith

pub unique-left : (k : Slice) → (k.shared ≡ true) ⊎ (k.left ≡ 0) → (unique k).left ≡ 0
unfolding unique
unique-left k (inl e) = rw e
unique-left k (inr e) = elim (Bool-cases k.shared) [ inl b ↦ rw b | inr b ↦ rw b e ]

length-nonblank : (k : Key) → length (nonblank k) ≤ length k
unfolding nonblank
length-nonblank [] = omega arith
length-nonblank (s ∷ k) = ground (arith, length-nonblank k)

length-trailing : (k : Key) → length (trailing k) ≤ 1
length-trailing k = ground arith

pub left_key : (k : Slice) → k.left ≡ 0 → key_of k ≡ take k.right k.segments.vec
left_key k h = let whole : k.right - 0 ≡ k.right = omega arith in rw (h, whole)

-- `append` on a vector that is not shared, from the first of its segments on
append_own :
    (key : Key) (k : Slice)
    → IsHeld k
    → k.left ≡ 0
    → (w : Slice) × (put_all (nonblank key ++ trailing key) (room_for key k) ≡ some w)
      × (key_of (collapse_slice w) ≡ collapse (key_of k ++ (nonblank key ++ trailing key)))
append_own key k h z =
    let ss = nonblank key ++ trailing key in
    let room = resize-size (k.right - k.left + length key + 1) k.segments h.allocated in
    let kept =
      resize-content (k.right - k.left + length key + 1) k.right k.segments h.filled h.allocated in
    let put = put_all-Extended ss (room_for key k) (
      omega (
        arith,
        room,
        z,
        length-append {0} (nonblank key) (trailing key),
        length-nonblank key,
        length-trailing key,
      )) in
    let content : take put.result.right put.result.segments.vec ≡ key_of k ++ ss =
      ap (λ n. take n put.result.segments.vec) put.to_right
      ∙ put.content
      ∙ ap (◌++ ss) (kept ∙ sym (left_key k z)) in
    (
      put.result,
      put.ran,
      collapse_key put.result (put.from_left ∙ z)
          ∙ collapse-take put.result.right put.result.segments.vec
              (omega (arith, put.inside, put.to_right))
          ∙ ap collapse content,
    )

-- `append` puts the segments of the path that are not blank behind those of the key, and a blank
-- one behind them if the path is empty or ends in a slash, with no write outside the vector, if
-- the vector is shared, and so copied, or the key stands at its beginning.
pub append_slice-append :
    (key : Key) (k : Slice)
    → IsHeld k
    → (k.shared ≡ true) ⊎ (k.left ≡ 0)
    → (append_slice key k >>= λ k'. some (key_of k'))
      ≡ some (collapse (key_of k ++ (nonblank key ++ trailing key)))
unfolding append_slice
append_slice-append key k h c =
    let (held, same) = unique-IsHeld k h in
    let (w, ran, result) = append_own key (unique k) held (unique-left k c) in
    rw ran (ap some (result ∙ ap (λ this. collapse (this ++ (nonblank key ++ trailing key))) same))

-- A key from which two or more segments were popped, of which no other key holds the vector, and which
-- reaches to the end of it: appending a path of names writes behind the vector, whatever the path.
pub append_slice_outside :
    (key : Key) (k : Slice)
    → IsPlain key
    → key ≢ []
    → k.shared ≡ false
    → IsHeld k
    → 2 ≤ k.left
    → k.right ≡ size k.segments
    → append_slice key k ≡ none
unfolding append_slice
append_slice_outside key k p ne own h two full =
    let some_segment = length_some key ne in
    let (small, kept) =
      resize-bounds (k.right - k.left + length key + 1) (k.right + length key) k.segments
        h.allocated (omega (arith, full, some_segment)) (omega (arith, two, h.ordered)) in
    rw (unique_own k own, nonblank-IsPlain key p, no_blank_end key p ne, append-nil key)
      (rw (put_all_outside key (room_for key k) small (omega (arith, full, kept))))
