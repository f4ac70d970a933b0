-- ===== src/TclString/Size.antt =====
-- The size that the first run computes is the length of the text that the second run writes.
use wvstreams.Prelude.{◌+◌, ◌≡◌, [], ◌∷◌, Bytes, length, length-append, refl, arith, inl, inr}
use wvstreams.StringMask.{WvStringMask}
use wvstreams.TclString.{
  Scan, scan_char, scan, start_scan, backslashed, method, escape, escape_size,
}
use wvstreams.TclString.Escape.{Method-cases}

length-backslashed :
    (nasties : WvStringMask) (cs : Bytes) (s : Scan)
    → length (backslashed nasties cs) + s.unprintables
      ≡ length cs + (scan nasties s cs).unprintables
unfolding backslashed scan scan_char
length-backslashed nasties [] s = refl
length-backslashed nasties (c ∷ cs) s =
    ground (arith, length-backslashed nasties cs (scan_char nasties s c))

-- Both runs of `wvtcl_escape` agree on the size, for every text and mask, so that the second one
-- fills exactly the buffer that the first one asked for.
pub length-escape :
    (nasties : WvStringMask) (s : Bytes) → length (escape nasties s) ≡ escape_size nasties s
unfolding escape escape_size
length-escape nasties [] = refl
length-escape nasties (c ∷ cs) = elim (Method-cases (method nasties (c ∷ cs))) [
  | inl h ↦ rw h
  | inr (inl h) ↦ rw h (ground (arith, length-append {0} cs (b'}' ∷ [])))
  | inr (inr h) ↦ rw h (omega (arith, length-backslashed nasties (c ∷ cs) start_scan))
]
