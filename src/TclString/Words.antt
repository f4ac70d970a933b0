-- ===== src/TclString/Words.antt =====
-- The loop of `getword` reads a word that `wvtcl_escape` wrote to its end and no further.
use wvstreams.Prelude.{
  ℕ, suc, ◌-◌, ◌≡◌, ◌≢◌, Bool, true, false, not, ◌&&◌, [], ◌∷◌, ◌++◌, append_assoc, Bytes, refl, ap,
  ◌∙◌, arith, ◌==◌, if◌then◌else◌, Bool-cases, inl, inr,
}
use wvstreams.Prelude.Int.{pos}
use wvstreams.StringMask.{WvStringMask, contains}
use wvstreams.TclString.{
  always_nasty, is_nasty, Scan, scan_char, scan, start_scan, needs_backslashes, backslashed,
  WordState, Word, word_char, go, longer, word_loop,
}
use wvstreams.TclString.Escape.{IsPlain}

-- What the round trip of lists needs of the two masks: a separator is written between the words,
-- every separator inside a word is quoted, and no special character is a separator.
pub record AreSeparators (nasties splitchars : WvStringMask) : Type 0 where
  pub separates : contains splitchars splitchars.first ≡ true
  pub quoted : (c : ℕ) → contains splitchars c ≡ true → contains nasties c ≡ true
  pub not_special : (c : ℕ) → contains splitchars c ≡ true → always_nasty c ≡ false

abbrev pub append_word : Bytes → Word → Word
append_word s w = record w { word = s ++ w.word }

-- between two words, or in a word that has no brace open; the flag is `incontinuation`
abbrev pub idle : Bool → WordState
idle k = record { inescape = false; incontinuation = k; bracecount = 0 }

-- the flag behind a word in backslashes: only a quoted line feed at its end shows in it
abbrev pub continues : WvStringMask → Bool → Bytes → Bool
continues nasties k [] = k
continues nasties k (c ∷ cs) = continues nasties (is_nasty nasties c && c == 10) cs

module _ (nasties splitchars : WvStringMask) (masks : AreSeparators nasties splitchars) where
  pub not_separator : (c : ℕ) → always_nasty c ≡ true → contains splitchars c ≡ false
  not_separator c h = ground (arith, masks.not_special c)

  pub loop_go :
      (s t : WordState) (c : ℕ) (cs : Bytes)
      → word_char false splitchars s c ≡ go t
      → word_loop false splitchars s (c ∷ cs) ≡ longer c (word_loop false splitchars t cs)
  unfolding word_loop
  loop_go s t c cs e = rw (e, word_loop)

  pub plain_not_separator : (c : ℕ) → is_nasty nasties c ≡ false → contains splitchars c ≡ false
  unfolding is_nasty
  plain_not_separator c h = ground (arith, masks.quoted c)

  word_plain :
      (k : Bool) (c : ℕ)
      → is_nasty nasties c ≡ false
      → word_char false splitchars (idle k) c ≡ go (idle false)
  word_plain k c h =
      unfold word_char is_nasty always_nasty in ground (arith, plain_not_separator c h)

  pub loop_plain :
      (s : Bytes) (k : Bool) (rest : Bytes)
      → IsPlain nasties s
      → s ≢ []
      → word_loop false splitchars (idle k) (s ++ rest)
        ≡ append_word s (word_loop false splitchars (idle false) rest)
  loop_plain [] k rest h e = absurd (e refl)
  loop_plain (c ∷ []) k rest h e = loop_go (idle k) (idle false) c rest (word_plain k c h.0)
  loop_plain (c ∷ d ∷ cs) k rest h e =
      loop_go (idle k) (idle false) c ((d ∷ cs) ++ rest) (word_plain k c h.0)
      ∙ ap (longer c) (loop_plain (d ∷ cs) false rest h.1 (λ q. ground (arith, q)))

  word_backslash :
      (k : Bool)
      → word_char false splitchars (idle k) b'\\'
        ≡ go (record { inescape = true; incontinuation = false; bracecount = 0 })
  unfolding word_char
  word_backslash k = refl

  word_escaped :
      (c : ℕ)
      → word_char false splitchars
          (record { inescape = true; incontinuation = false; bracecount = 0 })
          c
        ≡ go (idle (c == 10))
  unfolding word_char
  word_escaped c = refl

  pub loop_backslashed :
      (s : Bytes) (k : Bool) (rest : Bytes)
      → word_loop false splitchars (idle k) (backslashed nasties s ++ rest)
        ≡ append_word
            (backslashed nasties s)
            (word_loop false splitchars (idle (continues nasties k s)) rest)
  unfolding backslashed
  loop_backslashed [] k rest = refl
  loop_backslashed (c ∷ cs) k rest = elim (Bool-cases (is_nasty nasties c)) [
    | inl h ↦ rw h (
        loop_go (idle k) (record { inescape = true; incontinuation = false; bracecount = 0 }) b'\\'
          (c ∷ (backslashed nasties cs ++ rest)) (word_backslash k)
        ∙ ap (longer b'\\') (
            loop_go (record { inescape = true; incontinuation = false; bracecount = 0 })
              (idle (c == 10)) c (backslashed nasties cs ++ rest) (word_escaped c)
            ∙ ap (longer c) (loop_backslashed cs (c == 10) rest)))
    | inr h ↦ rw h (
        loop_go (idle k) (idle false) c (backslashed nasties cs ++ rest) (word_plain k c h)
        ∙ ap (longer c) (loop_backslashed cs false rest))
  ]

  -- inside `suc n` braces
  abbrev pub within : Bool → Bool → ℕ → WordState
  within i k n = record { inescape = i; incontinuation = k; bracecount = suc n }

  abbrev next_depth : Bool → ℕ → ℕ → ℕ
  next_depth i c n = if not i && c == b'{' then suc n else if not i && c == b'}' then n - 1 else n

  word_braced :
      (s : Scan) (n : ℕ) (k : Bool) (c : ℕ)
      → s.bracecount ≡ pos n
      → (scan_char nasties s c).backslashify ≡ false
      → (word_char false splitchars (within s.inescape k n) c
          ≡ go (
              within
                (scan_char nasties s c).inescape
                (s.inescape && c == 10)
                (next_depth s.inescape c n)))
        × ((scan_char nasties s c).bracecount ≡ pos (next_depth s.inescape c n))
  unfolding word_char scan_char
  word_braced s n k c p h = (ground arith, ground arith)

  scan_char_keeps_flag :
      (s : Scan) (c : ℕ) → (scan_char nasties s c).backslashify ≡ false → s.backslashify ≡ false
  unfolding scan_char
  scan_char_keeps_flag s c h = ground arith

  scan_keeps_flag :
      (cs : Bytes) (s : Scan) → (scan nasties s cs).backslashify ≡ false → s.backslashify ≡ false
  unfolding scan
  scan_keeps_flag [] s h = h
  scan_keeps_flag (c ∷ cs) s h =
      scan_char_keeps_flag s c (scan_keeps_flag cs (scan_char nasties s c) h)

  word_close :
      (s : Scan) (n : ℕ) (k : Bool)
      → s.bracecount ≡ pos n
      → needs_backslashes s ≡ false
      → word_char false splitchars (within s.inescape k n) b'}' ≡ go (idle false)
  unfolding word_char
  word_close s n k p h = ground arith

  pub loop_braced :
      (cs : Bytes) (s : Scan) (n : ℕ) (k : Bool) (rest : Bytes)
      → s.bracecount ≡ pos n
      → needs_backslashes (scan nasties s cs) ≡ false
      → word_loop false splitchars (within s.inescape k n) (cs ++ b'}' ∷ rest)
        ≡ append_word (cs ++ b'}' ∷ []) (word_loop false splitchars (idle false) rest)
  unfolding scan
  loop_braced [] s n k rest p h =
      loop_go (within s.inescape k n) (idle false) b'}' rest (word_close s n k p h)
  loop_braced (c ∷ cs) s n k rest p h =
      let later : (scan nasties (scan_char nasties s c) cs).backslashify ≡ false =
        ground (arith, h) in
      let (e, d) = word_braced s n k c p (scan_keeps_flag cs (scan_char nasties s c) later) in
      loop_go _ _ c (cs ++ b'}' ∷ rest) e
      ∙ ap (longer c) (
          loop_braced cs (scan_char nasties s c) (next_depth s.inescape c n) (s.inescape && c == 10)
            rest d h)

  pub brace_not_separator : contains splitchars b'{' ≡ false
  brace_not_separator = not_separator b'{' (unfold always_nasty in refl)

  pub word_open : (k : Bool) → word_char false splitchars (idle k) b'{' ≡ go (within false false 0)
  unfolding word_char
  word_open k = rw (brace_not_separator)

  pub loop_embraced :
      (s rest : Bytes)
      → needs_backslashes (scan nasties start_scan s) ≡ false
      → word_loop false splitchars (idle false) ((b'{' ∷ (s ++ b'}' ∷ [])) ++ rest)
        ≡ append_word (b'{' ∷ (s ++ b'}' ∷ [])) (word_loop false splitchars (idle false) rest)
  loop_embraced s rest h =
      loop_go (idle false) (within false false 0) b'{' ((s ++ b'}' ∷ []) ++ rest) (word_open false)
      ∙ ap (longer b'{') (
          ap (word_loop false splitchars (within false false 0)) (append_assoc s (b'}' ∷ []) rest)
          ∙ loop_braced s start_scan 0 false rest refl h)
