-- ===== src/UniConf/Key.antt =====
-- uniconf/uniconfkey.cc and include/uniconfkey.h: a key is a path of segments. A segment is a text
-- that may be empty, which stands for a trailing slash. The store that keys share is copied by
-- `unique` before any method changes it, and a key is here the list of the segments between `left` and
-- `right`; what the methods that write to the vector do is in UniConf/Slice. Counts are never negative
-- here: where the source has a negative number, `range` takes it for 0, as the subtraction of natural
-- numbers does.
pub mod Compare
pub mod Order
pub mod Text
pub mod Paths
pub mod Wildcards
use wvstreams.Prelude.{
  ◌>>=◌, ℕ, zero, suc, ◌+◌, ◌-◌, Bool, true, false, not, ◌&&◌, ◌||◌, Option, none, some, List, [],
  ◌∷◌, ◌++◌, Bytes, codes, length, take, drop, ltb, leb, ◌==◌, if◌then◌else◌,
}
use Compare.{Sign, less, same, greater, strcasecmp, is_same}

abbrev pub Segment : Type 0
Segment = Bytes

abbrev pub Key : Type 0
Key = List Segment

-- !segment, of a text
abbrev pub is_blank : Segment → Bool
is_blank [] = true
is_blank (_ ∷ _) = false

abbrev pub any_key : Key
any_key = codes "*" ∷ []

abbrev pub recursive_any : Key
recursive_any = codes "..." ∷ []

abbrev pub isempty : Key → Bool
isempty [] = true
isempty (_ ∷ _) = false

unfoldable pub hastrailingslash : Key → Bool
hastrailingslash [] = false
hastrailingslash (s ∷ []) = is_blank s
hastrailingslash (s ∷ t ∷ k) = hastrailingslash (t ∷ k)

abbrev pub numsegments : Key → ℕ
numsegments = length

-- the root is written in one way
unfoldable pub collapse : Key → Key
collapse [] = []
collapse (s ∷ []) = if is_blank s then [] else s ∷ []
collapse (s ∷ t ∷ k) = s ∷ t ∷ k

-- the segments that are not blank, as the loops over `_key` append them
unfoldable pub nonblank : Key → Key
nonblank [] = []
nonblank (s ∷ k) = if is_blank s then nonblank k else s ∷ nonblank k

-- the characters up to the next '/', and what follows it
unfoldable pub split_slash : Bytes → Segment → List Segment
split_slash [] acc = acc ∷ []
split_slash (c ∷ cs) acc = elim (c == b'/') [
  | true ↦ acc ∷ split_slash cs []
  | false ↦ split_slash cs (acc ++ c ∷ [])
]

abbrev pub ends_in_slash : Bytes → Bool
ends_in_slash [] = false
ends_in_slash (c ∷ []) = c == b'/'
ends_in_slash (c ∷ d ∷ cs) = ends_in_slash (d ∷ cs)

-- UniConfKey(WvStringParm key), with the constructor of Store
unfoldable pub from_text : Bytes → Key
from_text text =
    let parts = nonblank (split_slash text []) in
    if ends_in_slash text && not (isempty parts) then parts ++ [] ∷ [] else parts

-- what is appended for a trailing slash of the second path, and for the empty path
abbrev pub trailing : Key → Key
trailing key = if isempty key || hastrailingslash key then [] ∷ [] else []

-- UniConfKey(path, key)
unfoldable pub join : Key → Key → Key
join path key = collapse (nonblank path ++ nonblank key ++ trailing key)

-- vec[i] = s, none behind the end
abbrev pub put_at : ℕ → Segment → List Segment → Option (List Segment)
put_at i s [] = none
put_at zero s (t ∷ ts) = some (s ∷ ts)
put_at (suc i) s (t ∷ ts) = do ts' ← put_at i s ts; some (t ∷ ts')

abbrev pub blanks : ℕ → List Segment
blanks zero = []
blanks (suc n) = [] ∷ blanks n

unfoldable pub range : Key → ℕ → ℕ → Key
range k i j =
    let top = if ltb (numsegments k) j then numsegments k else j in
    collapse (take (top - i) (drop i k))

abbrev pub first : ℕ → Key → Key
first n k = range k 0 n

-- range(n, INT_MAX)
unfoldable pub removefirst : ℕ → Key → Key
removefirst n k = collapse (drop n k)

unfoldable pub last : ℕ → Key → Key
last n k = collapse (drop (numsegments k - n) k)

abbrev pub removelast : ℕ → Key → Key
removelast n k = range k 0 (numsegments k - n)

abbrev pub segment : ℕ → Key → Key
segment n k = range k n (n + 1)

-- pop: the result, and the key that is left
unfoldable pub pop : ℕ → Key → Key × Key
pop n k = if n == 0 then ([], k) else (collapse (take n k), collapse (drop n k))

unfoldable pub join_text : Key → Bytes
join_text [] = []
join_text (s ∷ []) = s
join_text (s ∷ t ∷ k) = s ++ b'/' ∷ join_text (t ∷ k)

-- printable
unfoldable pub printable : Key → Bytes
printable k = join_text k

unfoldable pub compareto : Key → Key → Sign
compareto [] [] = same
compareto [] (_ ∷ _) = less
compareto (_ ∷ _) [] = greater
compareto (s ∷ k) (t ∷ l) = elim (strcasecmp s t) [
  | same ↦ compareto k l
  | less ↦ less
  | greater ↦ greater
]

-- operator==
abbrev pub same_key : Key → Key → Bool
same_key k l = is_same (compareto k l)

-- Segment::iswild; WvString's == tells case apart
unfoldable pub same_text : Bytes → Bytes → Bool
same_text [] [] = true
same_text (c ∷ s) (d ∷ t) = c == d && same_text s t
same_text _ _ = false

unfoldable pub iswild : Key → Bool
iswild [] = false
iswild (s ∷ k) = same_text s (codes "*") || same_text s (codes "...") || iswild k

-- the loop over the suffixes of a key; `rounds` is more than there are
unfoldable pub some_suffix : (Key → Bool) → ℕ → Key → ℕ → Bool
some_suffix test zero k n = false
some_suffix test (suc rounds) k n =
    let rest = some_suffix test rounds k (n + 1) in
    let part = removefirst n k in if test part then true else if isempty part then false else rest

-- matches; every call within has a shorter pattern
unfoldable pub matches_from : ℕ → Key → Key → Bool
matches_from zero k pattern = same_key k pattern
matches_from (suc fuel) k pattern =
    let tail = removefirst 1 pattern in
    let below = matches_from fuel (removefirst 1 k) tail in
    let any_suffix = some_suffix (λ part. matches_from fuel part tail) (numsegments k + 1) k 0 in
    if same_key k pattern
    then true
    else if same_key (first 1 pattern) any_key
    then (if isempty k then false else below)
    else if same_key (first 1 pattern) recursive_any
    then (if isempty tail then true else any_suffix)
    else false

unfoldable pub matches : Key → Key → Bool
matches k pattern = matches_from (numsegments pattern) k pattern

abbrev pub depth : Key → ℕ
depth k = if hastrailingslash k then numsegments k - 1 else numsegments k

unfoldable pub suborsame : Key → Key → Bool
suborsame this key = same_key (first (depth this) key) (first (depth this) this)

-- suborsame with its second argument, `none` where it is left alone; subkey asserts that it is not
unfoldable pub subkey : Key → Key → Option Key
subkey this key = if suborsame this key then some (removefirst (depth this) key) else none
