-- ===== src/TclString/Escape.antt =====
-- Taking the quoting off a word gives the text that was quoted.
use wvstreams.Prelude.{
  ℕ, ◌≤◌, ◌≡◌, true, false, some, [], ◌∷◌, ◌++◌, Bytes, All, refl, ap, ◌∙◌, arith, ◌==◌, Bool-cases,
  ◌⊎◌, inl, inr,
}
use wvstreams.StringMask.{WvStringMask}
use wvstreams.TclString.{
  always_nasty, is_nasty, Scan, scan_char, scan, start_scan, backslashed, Method, verbatim,
  embraced, backslashes, method, escape, last_is, but_last, inside, unbackslash, unescape,
}

pub Method-cases : (m : Method) → (m ≡ verbatim) ⊎ ((m ≡ embraced) ⊎ (m ≡ backslashes))
Method-cases verbatim = inl refl
Method-cases embraced = inr (inl refl)
Method-cases backslashes = inr (inr refl)

module _ (nasties : WvStringMask) where
  -- no character of the text is special
  abbrev pub IsPlain : Bytes → Type 0
  IsPlain s = All (λ c. is_nasty nasties c ≡ false) s

  unprintables_grow : (cs : Bytes) (s : Scan) → s.unprintables ≤ (scan nasties s cs).unprintables
  unfolding scan scan_char
  unprintables_grow [] s = omega arith
  unprintables_grow (c ∷ cs) s = ground (arith, unprintables_grow cs (scan_char nasties s c))

  IsPlain-scan : (cs : Bytes) (s : Scan) → (scan nasties s cs).unprintables ≡ 0 → IsPlain cs
  unfolding scan scan_char
  IsPlain-scan [] s h = tt
  IsPlain-scan (c ∷ cs) s h = (
    ground (arith, unprintables_grow cs (scan_char nasties s c)),
    IsPlain-scan cs (scan_char nasties s c) h,
  )

  -- a text is written as it stands only if it is plain
  pub method-IsPlain : (s : Bytes) → method nasties s ≡ verbatim → IsPlain s
  method-IsPlain s h = IsPlain-scan s start_scan (unfold method in ground arith)

  unbackslash-backslashed : (s : Bytes) → unbackslash false (backslashed nasties s) ≡ s
  unfolding unbackslash backslashed is_nasty always_nasty
  unbackslash-backslashed [] = refl
  unbackslash-backslashed (c ∷ cs) = ground (arith, unbackslash-backslashed cs)

  unbackslash-plain : (s : Bytes) → IsPlain s → unbackslash false s ≡ s
  unfolding unbackslash is_nasty always_nasty
  unbackslash-plain [] h = refl
  unbackslash-plain (c ∷ cs) h = ground (arith, unbackslash-plain cs)

  last_is-concat : (s : Bytes) (q : ℕ) → last_is q (s ++ q ∷ []) ≡ true
  last_is-concat [] q = ground arith
  last_is-concat (c ∷ []) q = ground arith
  last_is-concat (c ∷ d ∷ cs) q = last_is-concat (d ∷ cs) q

  but_last-concat : (s : Bytes) (q : ℕ) → but_last (s ++ q ∷ []) ≡ s
  but_last-concat [] q = refl
  but_last-concat (c ∷ []) q = refl
  but_last-concat (c ∷ d ∷ cs) q = ap (◌∷◌ c) (but_last-concat (d ∷ cs) q)

  inside_braces : (s : Bytes) (p q : ℕ) → inside (p ∷ (s ++ q ∷ [])) ≡ some s
  inside_braces [] p q = refl
  inside_braces (c ∷ cs) p q = ap some (but_last-concat (c ∷ cs) q)

  unescape-braces : (s : Bytes) → unescape (b'{' ∷ (s ++ b'}' ∷ [])) ≡ some s
  unfolding unescape
  unescape-braces [] = refl
  unescape-braces (c ∷ cs) = rw (last_is-concat (c ∷ cs) b'}') (inside_braces (c ∷ cs) b'{' b'}')

  unescape_unquoted :
      (c : ℕ) (cs : Bytes)
      → (c == b'{') ≡ false
      → (c == b'"') ≡ false
      → unescape (c ∷ cs) ≡ some (unbackslash false (c ∷ cs))
  unfolding unescape
  unescape_unquoted c cs p q = rw (p, q)

  unescape-plain : (s : Bytes) → IsPlain s → unescape s ≡ some s
  unescape-plain [] h = unfold unescape unbackslash in refl
  unescape-plain (c ∷ cs) h =
      unescape_unquoted c cs (unfold is_nasty always_nasty in ground arith)
        (unfold is_nasty always_nasty in ground arith)
      ∙ ap some (unbackslash-plain (c ∷ cs) h)

  backslashed-head :
      (c : ℕ) (cs : Bytes)
      → unescape (backslashed nasties (c ∷ cs))
        ≡ some (unbackslash false (backslashed nasties (c ∷ cs)))
  unfolding backslashed
  backslashed-head c cs = elim (Bool-cases (is_nasty nasties c)) [
    | inl h ↦ rw h (unescape_unquoted b'\\' (c ∷ backslashed nasties cs) refl refl)
    | inr h ↦ rw h (
        unescape_unquoted c (backslashed nasties cs) (unfold is_nasty always_nasty in ground arith)
          (unfold is_nasty always_nasty in ground arith))
  ]

-- Whatever the characters that are to be quoted, `wvtcl_unescape` takes the quoting of
-- `wvtcl_escape` off again, with no run past the end of the text.
pub unescape-escape : (nasties : WvStringMask) (s : Bytes) → unescape (escape nasties s) ≡ some s
unescape-escape nasties [] = unfold escape unescape in refl
unescape-escape nasties (c ∷ cs) =
    unfold escape in
    elim (Method-cases (method nasties (c ∷ cs))) [
      | inl h ↦ rw h (unescape-plain nasties (c ∷ cs) (method-IsPlain nasties (c ∷ cs) h))
      | inr (inl h) ↦ rw h (unescape-braces nasties (c ∷ cs))
      | inr (inr h) ↦
          rw h (backslashed-head nasties c cs ∙ ap some (unbackslash-backslashed nasties (c ∷ cs)))
    ]
