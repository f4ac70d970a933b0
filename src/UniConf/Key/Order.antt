-- ===== src/UniConf/Key/Order.antt =====
-- `compareto` is a total order of keys, in which case does not matter.
use wvstreams.Prelude.{true, List, [], ◌∷◌, map, Bytes, ◌≡◌, ◌↔◌, refl, arith}
use wvstreams.Ctype.{tolower}
use wvstreams.UniConf.Key.Compare.{less, same, flip, strcasecmp}
use wvstreams.UniConf.Key.{Key, compareto, same_key}

pub strcasecmp-flip : (s t : Bytes) → strcasecmp t s ≡ flip (strcasecmp s t)
unfolding strcasecmp
strcasecmp-flip [] [] = refl
strcasecmp-flip [] (d ∷ t) = refl
strcasecmp-flip (c ∷ s) [] = refl
strcasecmp-flip (c ∷ s) (d ∷ t) = ground (arith, strcasecmp-flip s t)

-- Comparing the other way round gives the opposite sign.
pub compareto-flip : (k l : Key) → compareto l k ≡ flip (compareto k l)
unfolding compareto
compareto-flip [] [] = refl
compareto-flip [] (t ∷ l) = refl
compareto-flip (s ∷ k) [] = refl
compareto-flip (s ∷ k) (t ∷ l) = ground (arith, compareto-flip k l, strcasecmp-flip s t)

pub strcasecmp-same_left : (s t u : Bytes) → strcasecmp s t ≡ same → strcasecmp s u ≡ strcasecmp t u
unfolding strcasecmp
strcasecmp-same_left [] [] u h = refl
strcasecmp-same_left [] (d ∷ t) u h = cc
strcasecmp-same_left (c ∷ s) [] u h = cc
strcasecmp-same_left (c ∷ s) (d ∷ t) [] h = refl
strcasecmp-same_left (c ∷ s) (d ∷ t) (e ∷ u) h = ground (arith, strcasecmp-same_left s t u)

strcasecmp_trans :
    (s t u : Bytes) → strcasecmp s t ≡ less → strcasecmp t u ≡ less → strcasecmp s u ≡ less
unfolding strcasecmp
strcasecmp_trans [] [] u h k = cc
strcasecmp_trans [] (d ∷ t) [] h k = cc
strcasecmp_trans [] (d ∷ t) (e ∷ u) h k = refl
strcasecmp_trans (c ∷ s) [] u h k = cc
strcasecmp_trans (c ∷ s) (d ∷ t) [] h k = cc
strcasecmp_trans (c ∷ s) (d ∷ t) (e ∷ u) h k = ground (
  arith,
  strcasecmp_trans s t u,
  strcasecmp-same_left s t u,
  strcasecmp-flip t u,
  strcasecmp-same_left u t s,
  strcasecmp-flip s t,
  strcasecmp-flip s u,
)

-- Keys that compare as the same compare alike with every other key.
pub compareto_same_left : (k l m : Key) → compareto k l ≡ same → compareto k m ≡ compareto l m
unfolding compareto
compareto_same_left [] [] m h = refl
compareto_same_left [] (t ∷ l) m h = cc
compareto_same_left (s ∷ k) [] m h = cc
compareto_same_left (s ∷ k) (t ∷ l) [] h = refl
compareto_same_left (s ∷ k) (t ∷ l) (u ∷ m) h =
    ground (arith, compareto_same_left k l m, strcasecmp-same_left s t u)

-- Between keys `less` is transitive, also where the keys differ in case.
pub compareto_trans :
    (k l m : Key) → compareto k l ≡ less → compareto l m ≡ less → compareto k m ≡ less
unfolding compareto
compareto_trans [] [] m h k = cc
compareto_trans [] (t ∷ l) [] h k = cc
compareto_trans [] (t ∷ l) (u ∷ m) h k = refl
compareto_trans (s ∷ k) [] m h e = cc
compareto_trans (s ∷ k) (t ∷ l) [] h e = cc
compareto_trans (s ∷ k) (t ∷ l) (u ∷ m) h e = ground (
  arith,
  compareto_trans k l m,
  strcasecmp_trans s t u,
  strcasecmp-same_left s t u,
  strcasecmp-flip t u,
  strcasecmp-same_left u t s,
  strcasecmp-flip s t,
  strcasecmp-flip s u,
)

abbrev pub lowered : Key → List Bytes
lowered k = map (map tolower) k

strcasecmp-lowered : (s t : Bytes) → (strcasecmp s t ≡ same) ↔ (map tolower s ≡ map tolower t)
unfolding strcasecmp
strcasecmp-lowered [] [] = (λ h. refl, λ h. refl)
strcasecmp-lowered [] (d ∷ t) = (λ h. cc, λ h. cc)
strcasecmp-lowered (c ∷ s) [] = (λ h. cc, λ h. cc)
strcasecmp-lowered (c ∷ s) (d ∷ t) = ground (arith, strcasecmp-lowered s t)

-- Two keys are equal exactly when they have the same segments up to case.
pub same_key-lowered : (k l : Key) → (same_key k l ≡ true) ↔ (lowered k ≡ lowered l)
unfolding compareto
same_key-lowered [] [] = (λ h. refl, λ h. refl)
same_key-lowered [] (t ∷ l) = (λ h. cc, λ h. cc)
same_key-lowered (s ∷ k) [] = (λ h. cc, λ h. cc)
same_key-lowered (s ∷ k) (t ∷ l) = ground (arith, same_key-lowered k l, strcasecmp-lowered s t)
