-- ===== src/UniConf/Key/Compare.antt =====
-- strcasecmp, as uniconf/uniconfkey.cc calls it: the sign of the first difference of two texts, with
-- upper case read as lower case.
use Prim.Native.Nat.{compare, Ordering}
use wvstreams.Prelude.{ℕ, Bool, true, false, [], ◌∷◌, Bytes}
use wvstreams.Ctype.{tolower}

pub data Sign : Type 0 where
  less same greater : Sign

abbrev pub is_same : Sign → Bool
is_same same = true
is_same _ = false

abbrev pub is_less : Sign → Bool
is_less less = true
is_less _ = false

abbrev pub flip : Sign → Sign
flip less = greater
flip same = same
flip greater = less

abbrev pub char_sign : ℕ → ℕ → Sign
char_sign a b = elim (compare a b) [
  | Ordering.lt ↦ less
  | Ordering.eq ↦ same
  | Ordering.gt ↦ greater
]

unfoldable pub strcasecmp : Bytes → Bytes → Sign
strcasecmp [] [] = same
strcasecmp [] (_ ∷ _) = less
strcasecmp (_ ∷ _) [] = greater
strcasecmp (c ∷ s) (d ∷ t) = elim (char_sign (tolower c) (tolower d)) [
  | same ↦ strcasecmp s t
  | less ↦ less
  | greater ↦ greater
]
