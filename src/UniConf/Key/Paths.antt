-- ===== src/UniConf/Key/Paths.antt =====
-- Joining paths, taking them apart, and the subkey relation.
use wvstreams.Prelude.{
  take-append_length, drop-append_length, ◌-◌, false, ◌≢◌, some, [], ◌∷◌, ◌++◌, append-nil, length,
  length-append, All, ◌≡◌, refl, sym, ap, ◌∙◌, arith, ltb, if◌then◌else◌,
}
use wvstreams.UniConf.Key.Compare.{Sign, less, same, greater, flip}
use wvstreams.UniConf.Key.Order.{compareto-flip}
use wvstreams.UniConf.Key.{
  Key, is_blank, hastrailingslash, collapse, trailing, nonblank, join, range, first, removefirst,
  depth, compareto, suborsame, subkey,
}

-- no segment is blank: a key with no trailing slash
abbrev pub IsPlain : Key → Type 0
IsPlain k = All (λ s. is_blank s ≡ false) k

pub nonblank-IsPlain : (k : Key) → IsPlain k → nonblank k ≡ k
unfolding nonblank
nonblank-IsPlain [] h = refl
nonblank-IsPlain (s ∷ k) h = rw h.0 (ap (◌∷◌ s) (nonblank-IsPlain k h.1))

pub hastrailingslash-IsPlain : (k : Key) → IsPlain k → hastrailingslash k ≡ false
unfolding hastrailingslash
hastrailingslash-IsPlain [] h = refl
hastrailingslash-IsPlain (s ∷ []) h = h.0
hastrailingslash-IsPlain (s ∷ t ∷ k) h = hastrailingslash-IsPlain (t ∷ k) h.1

pub collapse-IsPlain : (k : Key) → IsPlain k → collapse k ≡ k
unfolding collapse
collapse-IsPlain [] h = refl
collapse-IsPlain (s ∷ []) h = rw h.0
collapse-IsPlain (s ∷ t ∷ k) h = refl

pub IsPlain-append : (k l : Key) → IsPlain k → IsPlain l → IsPlain (k ++ l)
IsPlain-append [] l h e = e
IsPlain-append (s ∷ k) l h e = (h.0, IsPlain-append k l h.1 e)

-- what `append` adds behind the segments of a path with no trailing slash
pub no_blank_end : (l : Key) → IsPlain l → l ≢ [] → trailing l ≡ []
no_blank_end [] e ne = absurd (ne refl)
no_blank_end (t ∷ m) e ne = rw (hastrailingslash-IsPlain (t ∷ m) e)

-- With no trailing slash on either side, joining is the concatenation of the segments.
join-IsPlain : (k l : Key) → IsPlain k → IsPlain l → l ≢ [] → join k l ≡ k ++ l
unfolding join
join-IsPlain k l h e ne =
    rw (nonblank-IsPlain k h, nonblank-IsPlain l e, no_blank_end l e ne, append-nil)
      (collapse-IsPlain (k ++ l) (IsPlain-append k l h e))

flip_same : (s : Sign) → s ≡ flip s → s ≡ same
flip_same less h = cc
flip_same same h = refl
flip_same greater h = cc

pub compareto_refl : (k : Key) → compareto k k ≡ same
compareto_refl k = flip_same (compareto k k) (compareto-flip k k)

top_length :
    (k l : Key)
    → (if ltb (length (k ++ l)) (length k) then length (k ++ l) else length k) - 0 ≡ length k
top_length k l = ground (arith, length-append {0} k l)

first-append : (k l : Key) → IsPlain k → first (length k) (k ++ l) ≡ k
unfolding range
first-append k l h = rw (top_length k l, take-append_length k l) (collapse-IsPlain k h)

first_self : (k : Key) → IsPlain k → first (length k) k ≡ k
first_self k h = ap (first (length k)) (sym (append-nil k)) ∙ first-append k [] h

depth-IsPlain : (k : Key) → IsPlain k → depth k ≡ length k
depth-IsPlain k h = rw (hastrailingslash-IsPlain k h)

-- For two paths with no blank segment (so with no trailing slash), of which the second is not
-- empty: the second joined to the first is below the first, and what `subkey` cuts off again is
-- the second.
pub subkey-join : (k l : Key) → IsPlain k → IsPlain l → l ≢ [] → subkey k (join k l) ≡ some l
unfolding subkey suborsame removefirst
subkey-join k l h e ne = rw (
  join-IsPlain k l h e ne,
  depth-IsPlain k h,
  first-append k l h,
  first_self k h,
  compareto_refl k,
  drop-append_length k l,
  collapse-IsPlain l e,
)
