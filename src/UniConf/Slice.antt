-- ===== src/UniConf/Slice.antt =====
-- include/uniconfkey.h and uniconf/uniconfkey.cc: how a key is held, as the part from `left` to `right`
-- of a vector that may be shared with other keys, and the methods that write to the vector. `shared`
-- says that the reference count is not 1. `none` is a write behind the vector.
pub mod Vector
pub mod Append
pub mod Shift
pub mod Prepend
use wvstreams.Prelude.{
  ◌>>=◌, ℕ, zero, suc, ◌+◌, ◌-◌, Bool, true, false, ◌&&◌, ◌||◌, Option, none, some, List, [], ◌∷◌,
  ◌++◌, length, get_elem?, take, drop, ltb, leb, ◌==◌, get_or, if◌then◌else◌,
}
use wvstreams.UniConf.Key.{
  blanks, put_at, Segment, Key, is_blank, isempty, hastrailingslash, trailing, nonblank,
}

-- _size is the length of `vec`
pub record SegmentVector : Type 0 where
  pub vec : List Segment
  pub used : ℕ

abbrev pub size : SegmentVector → ℕ
size v = length v.vec

-- resize(size), with no shift
unfoldable pub resize : ℕ → SegmentVector → SegmentVector
resize n v =
    if leb n (size v)
    then v
    else record v { vec = take v.used v.vec ++ blanks (n - length (take v.used v.vec)) }

unfoldable pub replace : ℕ → Segment → SegmentVector → Option SegmentVector
replace index s v = do
  vec ← put_at index s v.vec
  some (record { vec = vec; used = if leb v.used index then index + 1 else v.used })

pub record Slice : Type 0 where
  pub segments : SegmentVector
  pub shared : Bool
  pub left : ℕ
  pub right : ℕ

-- the key that is held
abbrev pub key_of : Slice → Key
key_of k = take (k.right - k.left) (drop k.left k.segments.vec)

abbrev pub empty_slice : Slice
empty_slice = record {
  segments = record { vec = [] ∷ []; used = 0 };
  shared = true;
  left = 0;
  right = 0;
}

unfoldable pub collapse_slice : Slice → Slice
collapse_slice k =
    if (k.right - k.left == 1 && is_blank (get_or k.segments.vec (k.right - 1) []))
      || (k.right == k.left)
    then empty_slice
    else k

unfoldable pub unique : Slice → Slice
unique k =
    if k.shared
    then record {
      segments = record { vec = key_of k; used = k.right - k.left };
      shared = false;
      left = 0;
      right = k.right - k.left;
    }
    else k

-- the loop of `append`: each segment is written at `right`
unfoldable pub put_all : Key → Slice → Option Slice
put_all [] k = some k
put_all (s ∷ ss) k = do
  v ← replace k.right s k.segments
  put_all ss (record k { segments = v; right = k.right + 1 })

abbrev pub room_for : Key → Slice → Slice
room_for key k = record k { segments = resize (k.right - k.left + length key + 1) k.segments }

unfoldable pub append_slice : Key → Slice → Option Slice
append_slice key k = do
  whole ← put_all (nonblank key ++ trailing key) (room_for key (unique k))
  some (collapse_slice whole)

-- the loop of resize that moves the segments in use up, from the last on
unfoldable pub shift_loop : ℕ → ℕ → List Segment → Option (List Segment)
shift_loop zero shift vec = some vec
shift_loop (suc i) shift vec = do
  s ← get_elem? vec i
  vec' ← put_at (i + shift) s vec
  shift_loop i shift vec'

abbrev pub min : ℕ → ℕ → ℕ
min m n = if ltb m n then m else n

-- resize(size, shift)
unfoldable pub resize_shifted : ℕ → ℕ → SegmentVector → Option SegmentVector
resize_shifted n shift v =
    let limit = min (min (n - shift) (size v)) v.used in
    if leb n (size v)
    then (do
      vec ← shift_loop v.used shift v.vec
      some (record { vec = vec; used = v.used + shift }))
    else some (record {
      vec = blanks shift ++ (take limit v.vec ++ blanks (n - shift - limit));
      used = v.used + shift;
    })

-- the second loop of `prepend`: a segment that is not blank is written at the place that it has in the path
unfoldable pub place_all : ℕ → Key → Slice → Option Slice
place_all j [] k = some k
place_all j (s ∷ ss) k = elim (is_blank s) [
  | true ↦ place_all (j + 1) ss k
  | false ↦ do
    v ← replace (k.left + j) s k.segments
    place_all (j + 1) ss (record k { segments = v; right = k.right + 1 })
]

unfoldable pub prepend_slice : Key → Slice → Option Slice
prepend_slice key k = do
  let own = unique k
  let shift = length (nonblank key)
  v ← resize_shifted (shift + own.right - own.left) shift own.segments
  whole ← place_all 0 key (record own { segments = v })
  some (collapse_slice whole)

-- pop, where the result is thrown away and no other key shares the vector
unfoldable pub pop_slice : ℕ → Slice → Slice
pop_slice n k =
    if n == 0
    then k
    else let own = unique k in
      let count = if ltb (own.right - own.left) n then own.right - own.left else n in
      collapse_slice (record own { left = own.left + count })
