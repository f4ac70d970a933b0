-- ===== src/StringMask/Members.antt =====
-- Which characters a mask holds.
use wvstreams.Prelude.{
  ℕ, ◌<◌, ◌≤◌, Bool, true, false, ◌||◌, none, some, [], ◌∷◌, Bytes, All, ◌≡◌, ◌++◌, ◌∙◌, refl,
  arith, ltb, ◌==◌,
}
use wvstreams.StringMask.{
  WvStringMask, set_each, update, to_unsigned, set_str, from_str, zap, contains, head_or_nul,
}

abbrev pub occurs : ℕ → Bytes → Bool
occurs c [] = false
occurs c (x ∷ s) = x == c || occurs c s

abbrev pub IsAscii : ℕ → Type 0
IsAscii c = c < 128

or_false : (b : Bool) → (b || false) ≡ b
or_false true = refl
or_false false = refl

in_range : (c : ℕ) → c < 128 → (to_unsigned c ≡ c) × (ltb (to_unsigned c) 256 ≡ true)
unfolding to_unsigned
in_range c h = (ground arith, ground arith)

set_each-occurs :
    (s : Bytes) (f : ℕ → Bool)
    → All IsAscii s
    → (g : ℕ → Bool) × (set_each f s true ≡ some g) × ((c : ℕ) → g c ≡ (occurs c s || f c))
set_each-occurs [] f h = unfold set_each in (f, refl, λ c. refl)
set_each-occurs (x ∷ s) f h =
    let (same, fits) = in_range x h.0 in
    let (g, e, m) = set_each-occurs s (update f x true) h.1 in
    (g, step same fits e, λ c. m c ∙ unfold update in ground arith)
  where
    step :
        {g : ℕ → Bool}
        → to_unsigned x ≡ x
        → ltb (to_unsigned x) 256 ≡ true
        → set_each (update f x true) s true ≡ some g
        → set_each f (x ∷ s) true ≡ some g
    step same fits e = unfold set_each in rw (fits, same) e

-- The mask made of an ASCII text holds exactly the text's characters, and its first character is
-- the text's.
pub from_str-occurs :
    (s : Bytes)
    → All IsAscii s
    → (m : WvStringMask) × (from_str (some s) ≡ some m)
      × ((c : ℕ) → contains m c ≡ occurs c s)
      × (m.first ≡ head_or_nul s)
from_str-occurs s h =
    let (g, e, mem) = set_each-occurs s (λ _. false) h in
    (
      record { member = g; first = head_or_nul s },
      unfold from_str zap set_str in rw e,
      λ c. unfold contains in mem c ∙ or_false (occurs c s),
      refl,
    )

set_each-high :
    (xs : Bytes) (f : ℕ → Bool) (c : ℕ) (ys : Bytes) (value : Bool)
    → 128 ≤ c
    → c < 256
    → set_each f (xs ++ c ∷ ys) value ≡ none
unfolding set_each
set_each-high [] f c ys value h k = unfold to_unsigned in ground arith
set_each-high (x ∷ xs) f c ys value h k =
    rw (set_each-high xs (update f (to_unsigned x) value) c ys value h k) (ground arith)

-- A character of 128 or more anywhere in the text is written outside the array.
pub set_str-high :
    (m : WvStringMask) (xs : Bytes) (c : ℕ) (ys : Bytes) (value : Bool)
    → 128 ≤ c
    → c < 256
    → set_str m (some (xs ++ c ∷ ys)) value ≡ none
unfolding set_str
set_str-high m xs c ys value h k = rw (set_each-high xs m.member c ys value h k)
