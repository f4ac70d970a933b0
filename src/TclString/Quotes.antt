-- ===== src/TclString/Quotes.antt =====
-- Words in double quotes, and why decoding always ends.
use wvstreams.Prelude.{
  ℕ, zero, suc, ◌+◌, ◌≤◌, ◌<◌, ◌≡◌, Bool, true, false, ◌&&◌, none, some, List, [], ◌∷◌, ◌++◌, Bytes,
  All, length, refl, arith, ◌==◌, Bool-cases, Option-cases, ◌⊎◌, inl, inr,
}
use wvstreams.StringMask.{WvStringMask, contains}
use wvstreams.TclString.{
  unescape, head_is, Word, WordState, WordStep, stop_before, stop_after, go, word_loop, word_char,
  start_word, longer, finish_word, first_word, skip_separators, is_nil, unbackslash, but_last,
  last_is, getword, decode_from, decode, unescape_if,
}

WordStep-cases :
    (r : WordStep) → (r ≡ stop_before) ⊎ ((r ≡ stop_after) ⊎ ((t : WordState) × (r ≡ go t)))
WordStep-cases stop_before = inl refl
WordStep-cases stop_after = inr (inl refl)
WordStep-cases (go t) = inr (inr (t, refl))

module _ (splitchars : WvStringMask) where
  skip-All :
      (seps rest : Bytes)
      → All (λ c. contains splitchars c ≡ true) seps
      → skip_separators splitchars (seps ++ rest) ≡ skip_separators splitchars rest
  unfolding skip_separators
  skip-All [] rest h = refl
  skip-All (c ∷ cs) rest h = rw h.0 (skip-All cs rest h.1)

  -- A word that begins with a double quote is never found, closed or not, whatever follows it:
  -- `inquote` is still set behind the closing quote, and `getword` takes the word for unfinished.
  pub getword_quoted :
      (seps rest : Bytes)
      → All (λ c. contains splitchars c ≡ true) seps
      → contains splitchars b'"' ≡ false
      → getword splitchars (seps ++ b'"' ∷ rest) ≡ none
  unfolding getword
  getword_quoted seps rest h k =
      rw (skip-All seps (b'"' ∷ rest) h) (unfold skip_separators in rw k (ground arith))

  length-word_loop :
      (q : Bool) (cs : Bytes) (s : WordState)
      → length (word_loop q splitchars s cs).word + length (word_loop q splitchars s cs).rest
        ≡ length cs
  unfolding word_loop
  length-word_loop q [] s = refl
  length-word_loop q (c ∷ cs) s = elim (WordStep-cases (word_char q splitchars s c)) [
    | inl e ↦ rw (e, word_loop) (omega arith)
    | inr (inl e) ↦ rw (e, word_loop) (omega arith)
    | inr (inr (t, e)) ↦ rw (e, word_loop) (omega (arith, length-word_loop q cs t))
  ]

  length-skip : (s : Bytes) → length (skip_separators splitchars s) ≤ length s
  unfolding skip_separators
  length-skip [] = omega arith
  length-skip (c ∷ cs) = ground (arith, length-skip cs)

  length-pos : (s : Bytes) → is_nil s ≡ false → 0 < length s
  length-pos [] h = cc
  length-pos (c ∷ s) h = omega arith

  finish_word-some :
      (q : Bool) (x w : Word)
      → finish_word q x ≡ some w
      → (x ≡ w) × (is_nil x.word ≡ false) × (q ≡ false)
  finish_word-some q x w h = (ground arith, ground arith, ground arith)

  -- a word is found by the loop that is not in quotes, and holds at least one character
  first_word-some :
      (c : ℕ) (cs : Bytes) (w : Word)
      → first_word splitchars (c ∷ cs) ≡ some w
      → (word_loop false splitchars start_word (c ∷ cs) ≡ w)
        × (is_nil (word_loop false splitchars start_word (c ∷ cs)).word ≡ false)
        × ((c == b'"') ≡ false)
  first_word-some c cs w h = elim (Bool-cases (c == b'"')) [
    | inl e ↦ absurd (
        ground (
          arith,
          finish_word-some true (longer c (word_loop true splitchars start_word cs)) w (rw e at h),
        ))
    | inr e ↦
        let (p, q, r) =
          finish_word-some false (word_loop false splitchars start_word (c ∷ cs)) w (rw e at h) in
        (p, q, e)
  ]

  first_word_shorter :
      (s : Bytes) (w : Word) → first_word splitchars s ≡ some w → length w.rest < length s
  first_word_shorter [] w h = ground arith
  first_word_shorter (c ∷ cs) w h =
      let (p, q, r) = first_word-some c cs w h in
      rw (← p) (omega (arith, length-word_loop false (c ∷ cs) start_word, length-pos _ q))

  word_loop_head :
      (c : ℕ) (cs : Bytes)
      → (c == b'"') ≡ false
      → head_is b'"' (word_loop false splitchars start_word (c ∷ cs)).word ≡ false
  unfolding word_loop
  word_loop_head c cs h = elim (WordStep-cases (word_char false splitchars start_word c)) [
    | inl e ↦ rw (e, word_loop)
    | inr (inl e) ↦ rw (e, word_loop) h
    | inr (inr (t, e)) ↦ rw (e, word_loop) h
  ]

  first_word_unquoted :
      (s : Bytes) (w : Word) → first_word splitchars s ≡ some w → head_is b'"' w.word ≡ false
  first_word_unquoted [] w h = ground arith
  first_word_unquoted (c ∷ cs) w h =
      let (p, q, r) = first_word-some c cs w h in rw (← p) (word_loop_head c cs r)

  getword_shorter :
      (s : Bytes) (w : Word) → getword splitchars s ≡ some w → length w.rest < length s
  unfolding getword
  getword_shorter s w h =
      omega (arith, first_word_shorter (skip_separators splitchars s) w h, length-skip s)

  unescape_total : (s : Bytes) → head_is b'"' s ≡ false → (r : Bytes) × (unescape s ≡ some r)
  unfolding unescape
  unescape_total [] h = (_, refl)
  unescape_total (c ∷ []) h = (unbackslash false (c ∷ []), ground arith)
  unescape_total (c ∷ d ∷ cs) h = elim (Bool-cases (c == b'{' && last_is b'}' (d ∷ cs))) [
    | inl e ↦ (but_last (d ∷ cs), rw e)
    | inr e ↦ (unbackslash false (c ∷ d ∷ cs), rw (e, h))
  ]

  unescape_word :
      (do_unescape : Bool) (s : Bytes) (w : Word)
      → getword splitchars s ≡ some w
      → (r : Bytes) × (unescape_if do_unescape w.word ≡ some r)
  unfolding getword
  unescape_word true s w h =
      unescape_total w.word (first_word_unquoted (skip_separators splitchars s) w h)
  unescape_word false s w h = (w.word, refl)

  decode_from_total :
      (fuel : ℕ) (do_unescape : Bool) (s : Bytes)
      → length s < fuel
      → (ws : List Bytes) × (decode_from fuel splitchars do_unescape s ≡ some ws)
  unfolding decode_from
  decode_from_total zero u s h = absurd (omega arith)
  decode_from_total (suc fuel) u s h = elim (Option-cases (getword splitchars s)) [
    | inl e ↦ ([], rw (e, decode_from))
    | inr (w, e) ↦
        let (r, p) = unescape_word u s w e in
        let (ws, q) = decode_from_total fuel u w.rest (omega (arith, getword_shorter s w e)) in
        (r ∷ ws, rw (e, decode_from) (rw (p, q)))
  ]

  -- Decoding ends on every text, well formed or not, and never runs past the end of a word.
  pub decode_total :
      (do_unescape : Bool) (s : Bytes)
      → (ws : List Bytes) × (decode splitchars do_unescape s ≡ some ws)
  unfolding decode
  decode_total u s = decode_from_total (length s + 1) u s (omega arith)

-- `wvtcl_unescape` of the text that is one double quote runs past its end.
pub unescape_quote : unescape (b'"' ∷ []) ≡ none
unfolding unescape
unescape_quote = refl
