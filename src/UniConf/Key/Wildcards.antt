-- ===== src/UniConf/Key/Wildcards.antt =====
-- What `matches` decides.
use mathlib.Core.Path.{fun_ext}
use wvstreams.Prelude.{
  ℕ, zero, suc, ◌+◌, ◌≤◌, Bool, true, false, ◌||◌, [], ◌∷◌, length, drop, codes, ◌≡◌, inl, inr,
  refl, sym, ap, ◌∙◌, arith, if◌then◌else◌, Bool-cases,
}
use wvstreams.UniConf.Key.Compare.{strcasecmp}
use wvstreams.Ctype.{tolower, isupper}
use wvstreams.UniConf.Key.Paths.{IsPlain, collapse-IsPlain}
use wvstreams.UniConf.Key.{
  Segment, Key, isempty, collapse, any_key, recursive_any, first, removefirst, range, compareto,
  same_key, some_suffix, matches_from, matches, numsegments,
}

length-collapse : (k : Key) → length (collapse k) ≤ length k
unfolding collapse
length-collapse [] = omega arith
length-collapse (s ∷ []) = ground arith
length-collapse (s ∷ t ∷ k) = omega arith

removefirst_shorter : (p : Key) (n : ℕ) → length p ≤ suc n → length (removefirst 1 p) ≤ n
unfolding removefirst
removefirst_shorter [] n h = omega (arith, length-collapse [])
removefirst_shorter (s ∷ p) n h = omega (arith, length-collapse p)

-- the body of `matches`, over what it calls for shorter patterns
abbrev pub matches_body : (Key → Key → Bool) → Key → Key → Bool
matches_body rec k pattern =
    let tail = removefirst 1 pattern in
    if same_key k pattern
    then true
    else if same_key (first 1 pattern) any_key
    then (if isempty k then false else rec (removefirst 1 k) tail)
    else if same_key (first 1 pattern) recursive_any
    then (if isempty tail
        then true
        else some_suffix (λ part. rec part tail) (numsegments k + 1) k 0)
    else false

matches_from-suc :
    (f : ℕ) (k p : Key) → matches_from (suc f) k p ≡ matches_body (matches_from f) k p
unfolding matches_from
matches_from-suc f k p = refl

empty_pattern : (rec : Key → Key → Bool) (k : Key) → matches_body rec k [] ≡ same_key k []
unfolding range collapse compareto
empty_pattern rec k = ground arith

matches_body_congr :
    (r q : Key → Key → Bool) (k p : Key)
    → ((j : Key) → r j (removefirst 1 p) ≡ q j (removefirst 1 p))
    → matches_body r k p ≡ matches_body q k p
matches_body_congr r q k p h =
    ap
      (λ (g : Key → Bool).
        (if same_key k p
          then true
          else if same_key (first 1 p) any_key
          then (if isempty k then false else g (removefirst 1 k))
          else if same_key (first 1 p) recursive_any
          then (if isempty (removefirst 1 p) then true else some_suffix g (numsegments k + 1) k 0)
          else false))
      (fun_ext h)

matches_from_fuel :
    (f g : ℕ) (k p : Key) → length p ≤ f → length p ≤ g → matches_from f k p ≡ matches_from g k p
matches_from_fuel zero zero k p h e = refl
matches_from_fuel zero (suc g) k [] h e =
    unfold matches_from in sym (empty_pattern (matches_from g) k)
matches_from_fuel zero (suc g) k (s ∷ p) h e = absurd (omega arith)
matches_from_fuel (suc f) zero k [] h e = unfold matches_from in empty_pattern (matches_from f) k
matches_from_fuel (suc f) zero k (s ∷ p) h e = absurd (omega arith)
matches_from_fuel (suc f) (suc g) k p h e =
    matches_from-suc f k p
    ∙ matches_body_congr (matches_from f) (matches_from g) k p (λ j.
      matches_from_fuel f g j (removefirst 1 p) (removefirst_shorter p f h)
        (removefirst_shorter p g e))
    ∙ sym (matches_from-suc g k p)

-- The fuel is enough: `matches` satisfies the equation that the source recurs by, for every key and
-- pattern.
pub matches_unfold : (k p : Key) → matches k p ≡ matches_body matches k p
unfolding matches
matches_unfold k p =
    matches_from_fuel (length p) (suc (length p)) k p (omega arith) (omega arith)
    ∙ matches_from-suc (length p) k p
    ∙ matches_body_congr (matches_from (length p)) matches k p (λ j.
      matches_from_fuel (length p) (length (removefirst 1 p)) j (removefirst 1 p) (shorter p)
        (omega arith))
  where
    shorter : (p : Key) → length (removefirst 1 p) ≤ length p
    shorter p = omega (arith, removefirst_shorter p (length p))

-- A pattern whose first segment is no wildcard matches only the keys that are equal to it, whatever
-- wildcards it holds further on.
pub matches_literal :
    (k p : Key)
    → same_key (first 1 p) any_key ≡ false
    → same_key (first 1 p) recursive_any ≡ false
    → matches k p ≡ same_key k p
matches_literal k p a r = matches_unfold k p ∙ ground arith

-- whether the test holds of some suffix of the path, the empty one and the path itself included
abbrev pub any_tail : (Key → Bool) → Key → Bool
any_tail test [] = test []
any_tail test (s ∷ k) = test (collapse (s ∷ k)) || any_tail test k

tail_of : (k : Key) (n : ℕ) (s : Segment) (rest : Key) → drop n k ≡ s ∷ rest → drop (suc n) k ≡ rest
tail_of [] zero s rest h = cc h
tail_of [] (suc n) s rest h = cc h
tail_of (t ∷ k) zero s rest h = cc h
tail_of (t ∷ k) (suc n) s rest h = tail_of k n s rest h

-- a suffix that is written as the root is the last one
empty_tail :
    (test : Key → Bool) (s : Segment) (k : Key)
    → isempty (collapse (s ∷ k)) ≡ true
    → test (collapse (s ∷ k)) ≡ false
    → any_tail test k ≡ false
unfolding collapse
empty_tail test [] [] e h = h
empty_tail test (c ∷ s) [] e h = cc e
empty_tail test s (t ∷ k) e h = cc e

suffix_step :
    (test : Key → Bool) (rounds n : ℕ) (k rest : Key)
    → drop n k ≡ rest
    → some_suffix test (suc rounds) k n ≡ (
        if test (collapse rest)
        then true
        else if isempty (collapse rest)
        then false
        else some_suffix test rounds k (n + 1))
unfolding some_suffix removefirst
suffix_step test rounds n k rest h = rw h refl

-- the loop over the suffixes tries each, with a round for each
some_suffix-any_tail :
    (test : Key → Bool) (n : ℕ) (k rest : Key)
    → drop n k ≡ rest
    → some_suffix test (suc (length rest)) k n ≡ any_tail test rest
some_suffix-any_tail test n k [] h =
    suffix_step test 0 n k [] h
    ∙ unfold collapse in elim (Bool-cases (test [])) [ inl e ↦ rw e refl | inr e ↦ rw e refl ]
some_suffix-any_tail test n k (s ∷ rest) h =
    suffix_step test (suc (length rest)) n k (s ∷ rest) h
    ∙ elim (Bool-cases (test (collapse (s ∷ rest)))) [
      | inl e ↦ rw e refl
      | inr e ↦
          let next : n + 1 ≡ suc n = omega arith in
          let left = ap (λ m. drop m k) next ∙ tail_of k n s rest h in
          rw e (elim (Bool-cases (isempty (collapse (s ∷ rest)))) [
            | inl b ↦ rw b (sym (empty_tail test s rest b e))
            | inr b ↦ rw b (some_suffix-any_tail test (n + 1) k rest left)
          ])
    ]

-- the empty suffix is always one
any_tail_empty : (test : Key → Bool) (k : Key) → test [] ≡ true → any_tail test k ≡ true
any_tail_empty test [] h = h
any_tail_empty test (s ∷ k) h = ground (arith, any_tail_empty test k h)

any_tail_whole : (test : Key → Bool) (k : Key) → test (collapse k) ≡ true → any_tail test k ≡ true
any_tail_whole test [] h = unfold collapse in h
any_tail_whole test (s ∷ k) h = rw h refl

first_dots : (p : Key) → first 1 (codes "..." ∷ p) ≡ recursive_any
unfolding range collapse
first_dots p = ground arith

removefirst_dots : (p : Key) → removefirst 1 (codes "..." ∷ p) ≡ collapse p
unfolding removefirst
removefirst_dots p = refl

dots_no_star : same_key recursive_any any_key ≡ false
unfolding compareto strcasecmp tolower isupper
dots_no_star = refl

dots_dots : same_key recursive_any recursive_any ≡ true
unfolding compareto strcasecmp tolower isupper
dots_dots = refl

same_key_tail : (s t : Segment) (k p : Key) → same_key (s ∷ k) (t ∷ p) ≡ true → same_key k p ≡ true
unfolding compareto
same_key_tail s t k p h = ground arith

matches_same : (k p : Key) → same_key k p ≡ true → matches k p ≡ true
matches_same k p h = matches_unfold k p ∙ rw h

same_key-collapse : (k p : Key) → same_key k p ≡ true → same_key (collapse k) (collapse p) ≡ true
unfolding collapse compareto strcasecmp
same_key-collapse [] [] h = refl
same_key-collapse [] (t ∷ p) h = cc h
same_key-collapse (s ∷ k) [] h = cc h
same_key-collapse ([] ∷ []) ([] ∷ []) h = refl
same_key-collapse ([] ∷ []) ((d ∷ t) ∷ []) h = cc h
same_key-collapse ((c ∷ s) ∷ []) ([] ∷ []) h = cc h
same_key-collapse ((c ∷ s) ∷ []) ((d ∷ t) ∷ []) h = h
same_key-collapse (s ∷ []) (t ∷ u ∷ p) h =
    let shorter = same_key_tail s t [] (u ∷ p) h in cc shorter
same_key-collapse (s ∷ r ∷ k) (t ∷ []) h = let longer = same_key_tail s t (r ∷ k) [] h in cc longer
same_key-collapse (s ∷ r ∷ k) (t ∷ u ∷ p) h = h

-- a key that is the pattern but for case
any_tail-same :
    (k : Key) (s : Segment) (p : Key)
    → same_key k (s ∷ p) ≡ true
    → any_tail (λ part. matches part (collapse p)) k ≡ true
any_tail-same [] s p h = unfold compareto in cc h
any_tail-same (r ∷ k) s p h =
    let rest =
      any_tail_whole (λ part. matches part (collapse p)) k
        (matches_same (collapse k) (collapse p)
          (same_key-collapse k p (same_key_tail r s k p h))) in
    ground (arith, rest)

matches_root : (p : Key) → isempty p ≡ true → matches [] p ≡ true
matches_root [] h = matches_same [] [] (unfold compareto in refl)
matches_root (s ∷ p) h = cc h

-- A pattern that begins with the recursive wildcard matches a key exactly if the rest of the
-- pattern matches some suffix of the key, the key itself and the empty key among them, for every
-- key and pattern; a suffix or a rest that is just a trailing slash counts as the empty key.
pub matches_recursive :
    (k p : Key) → matches k (codes "..." ∷ p) ≡ any_tail (λ part. matches part (collapse p)) k
matches_recursive k p =
    matches_unfold k (codes "..." ∷ p)
    ∙ rw (first_dots p, removefirst_dots p, dots_no_star, dots_dots)
        (elim (Bool-cases (same_key k (codes "..." ∷ p))) [
          | inl e ↦ rw e (sym (any_tail-same k (codes "...") p e))
          | inr e ↦ rw e (elim (Bool-cases (isempty (collapse p))) [
            | inl e' ↦ rw e' (
                sym (
                  any_tail_empty (λ part. matches part (collapse p)) k
                    (matches_root (collapse p) e')))
            | inr e' ↦ rw e' (
                ap (λ n. some_suffix (λ part. matches part (collapse p)) n k 0) (omega arith)
                ∙ some_suffix-any_tail (λ part. matches part (collapse p)) 0 k k refl)
          ])
        ])

first_star : (p : Key) → first 1 (codes "*" ∷ p) ≡ any_key
unfolding range collapse
first_star p = ground arith

removefirst_cons : (s : Segment) (k : Key) → IsPlain k → removefirst 1 (s ∷ k) ≡ k
unfolding removefirst
removefirst_cons s k h = collapse-IsPlain k h

star_star : same_key any_key any_key ≡ true
unfolding compareto strcasecmp tolower isupper
star_star = refl

-- A pattern that begins with the wildcard for one segment matches a key with any first segment exactly if
-- the rest of the pattern matches the rest of the key, where neither rest has a blank segment.
pub matches_any :
    (s : Segment) (k p : Key)
    → IsPlain k
    → IsPlain p
    → matches (s ∷ k) (codes "*" ∷ p) ≡ matches k p
matches_any s k p h e =
    matches_unfold (s ∷ k) (codes "*" ∷ p)
    ∙ rw (first_star p, star_star, removefirst_cons s k h, removefirst_cons (codes "*") p e)
        (elim (Bool-cases (same_key (s ∷ k) (codes "*" ∷ p))) [
          | inl b ↦ rw b (sym (matches_same k p (same_key_tail s (codes "*") k p b)))
          | inr b ↦ rw b
        ])
