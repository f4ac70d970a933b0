-- ===== src/TclString/Lists.antt =====
-- Decoding an encoded list gives the list back.
use wvstreams.Prelude.{
  ℕ, zero, suc, ◌+◌, ◌≤◌, ◌<◌, ◌≡◌, Bool, true, false, none, some, List, [], ◌∷◌, ◌++◌, append-nil,
  map, Bytes, length, length-append, refl, sym, ap, ◌∙◌, arith, ◌==◌, Bool-cases, inl, inr,
}
use wvstreams.StringMask.{WvStringMask, contains}
use wvstreams.TclString.{
  always_nasty, is_nasty, backslashed, Method, backslashes, method, escape, unescape, Word,
  word_loop, word_char, start_word, scan, finish_word, skip_separators, getword, decode_from,
  decode, encode, put_word, stop_before,
}
use wvstreams.TclString.Escape.{Method-cases, method-IsPlain, unescape-escape}
use wvstreams.TclString.Words.{
  AreSeparators, append_word, idle, continues, loop_plain, loop_backslashed, plain_not_separator,
  loop_embraced, not_separator, brace_not_separator,
}

module _ (nasties splitchars : WvStringMask) (masks : AreSeparators nasties splitchars) where
  -- Whether `getword` takes the word for an unfinished line: the word is written with backslashes
  -- and ends in a line feed.
  abbrev ends_by : Method → Bytes → Bool
  ends_by backslashes s = continues nasties false s
  ends_by _ s = false

  abbrev pub ends_in_newline : Bytes → Bool
  ends_in_newline s = ends_by (method nasties s) s

  loop-escape :
      (s rest : Bytes)
      → word_loop false splitchars start_word (escape nasties s ++ rest)
        ≡ append_word
            (escape nasties s)
            (word_loop false splitchars (idle (ends_in_newline s)) rest)
  unfolding escape
  loop-escape [] rest =
      loop_embraced nasties splitchars masks [] rest (unfold scan in refl)
      ∙ ap (append_word (b'{' ∷ b'}' ∷ []))
          (ap (λ k. word_loop false splitchars (idle k) rest) (unfold method scan in refl))
  loop-escape (c ∷ cs) rest = elim (Method-cases (method nasties (c ∷ cs))) [
    | inl h ↦ rw h (
        loop_plain nasties splitchars masks (c ∷ cs) false rest (method-IsPlain nasties (c ∷ cs) h)
          (λ q. ground (arith, q)))
    | inr (inl h) ↦
        rw h (loop_embraced nasties splitchars masks (c ∷ cs) rest (unfold method in ground arith))
    | inr (inr h) ↦ rw h (loop_backslashed nasties splitchars masks (c ∷ cs) false rest)
  ]

  -- an escaped word starts with a character that neither separates nor quotes
  record StartsWord (w : Bytes) : Type 0 where
    head : ℕ
    tail : Bytes
    splits : w ≡ head ∷ tail
    no_separator : contains splitchars head ≡ false
    no_quote : (head == b'"') ≡ false

  starts_braced : (s : Bytes) → StartsWord (b'{' ∷ s)
  starts_braced s = record {
    head = b'{';
    tail = s;
    splits = refl;
    no_separator = brace_not_separator nasties splitchars masks;
    no_quote = refl;
  }

  starts_plain : (c : ℕ) (s : Bytes) → is_nasty nasties c ≡ false → StartsWord (c ∷ s)
  starts_plain c s h = record {
    head = c;
    tail = s;
    splits = refl;
    no_separator = plain_not_separator nasties splitchars masks c h;
    no_quote = unfold is_nasty always_nasty in ground arith;
  }

  starts_backslashed : (c : ℕ) (cs : Bytes) → StartsWord (backslashed nasties (c ∷ cs))
  unfolding backslashed
  starts_backslashed c cs = elim (Bool-cases (is_nasty nasties c)) [
    | inl h ↦ rw h (record {
      head = b'\\';
      tail = c ∷ backslashed nasties cs;
      splits = refl;
      no_separator = not_separator nasties splitchars masks b'\\' (unfold always_nasty in refl);
      no_quote = refl;
    })
    | inr h ↦ rw h (starts_plain c (backslashed nasties cs) h)
  ]

  escape-StartsWord : (s : Bytes) → StartsWord (escape nasties s)
  unfolding escape
  escape-StartsWord [] = starts_braced (b'}' ∷ [])
  escape-StartsWord (c ∷ cs) = elim (Method-cases (method nasties (c ∷ cs))) [
    | inl h ↦ rw h (starts_plain c cs (method-IsPlain nasties (c ∷ cs) h).0)
    | inr (inl h) ↦ rw h (starts_braced _)
    | inr (inr h) ↦ rw h (starts_backslashed c cs)
  ]

  getword_starts :
      (w rest : Bytes)
      → StartsWord w
      → getword splitchars (w ++ rest)
        ≡ finish_word false (word_loop false splitchars start_word (w ++ rest))
  unfolding getword skip_separators
  getword_starts w rest h = rw h.splits (rw (h.no_separator, h.no_quote))

  -- the state in which the loop stops behind an escaped word
  loop_end :
      (k : Bool)
      → word_loop false splitchars (idle k) [] ≡ record { state = idle k; word = []; rest = [] }
  unfolding word_loop
  loop_end k = refl

  first_not_backslash : (splitchars.first == b'\\') ≡ false
  first_not_backslash =
      let plain : always_nasty splitchars.first ≡ false = masks.not_special _ masks.separates in
      unfold always_nasty in ground arith

  finish-StartsWord :
      (w rest : Bytes)
      → StartsWord w
      → finish_word false (record { state = idle false; word = w; rest = rest })
        ≡ some (record { state = idle false; word = w; rest = rest })
  finish-StartsWord w rest h = rw h.splits

  word_char_separator :
      (k : Bool) → word_char false splitchars (idle k) splitchars.first ≡ stop_before
  unfolding word_char
  word_char_separator k = ground (arith, first_not_backslash, masks.separates)

  loop_separator :
      (k : Bool) (rest : Bytes)
      → word_loop false splitchars (idle k) (splitchars.first ∷ rest)
        ≡ record { state = idle false; word = []; rest = splitchars.first ∷ rest }
  unfolding word_loop
  loop_separator k rest = rw (word_char_separator k, word_loop)

  getword-escape_end :
      (s : Bytes)
      → ends_in_newline s ≡ false
      → getword splitchars (escape nasties s)
        ≡ some (record { state = idle false; word = escape nasties s; rest = [] })
  getword-escape_end s h =
      ap (getword splitchars) (sym (append-nil (escape nasties s)))
      ∙ getword_starts (escape nasties s) [] (escape-StartsWord s)
      ∙ rw (loop-escape s [], h, loop_end, append-nil)
          (finish-StartsWord (escape nasties s) [] (escape-StartsWord s))

  getword-escape_separator :
      (s rest : Bytes)
      → getword splitchars (escape nasties s ++ splitchars.first ∷ rest)
        ≡ some
            (record { state = idle false; word = escape nasties s; rest = splitchars.first ∷ rest })
  getword-escape_separator s rest =
      getword_starts (escape nasties s) (splitchars.first ∷ rest) (escape-StartsWord s)
      ∙ rw (loop-escape s (splitchars.first ∷ rest), loop_separator, append-nil)
          (finish-StartsWord (escape nasties s) (splitchars.first ∷ rest) (escape-StartsWord s))

  getword_separator : (s : Bytes) → getword splitchars (splitchars.first ∷ s) ≡ getword splitchars s
  unfolding getword skip_separators
  getword_separator s = rw masks.separates

  decode_from_separator :
      (fuel : ℕ) (s : Bytes)
      → decode_from fuel splitchars true (splitchars.first ∷ s) ≡ decode_from fuel splitchars true s
  unfolding decode_from
  decode_from_separator zero s = refl
  decode_from_separator (suc fuel) s = rw (getword_separator s, decode_from)

  -- the last word does not end in a quoted line feed
  abbrev pub EndsWell : List Bytes → Type 0
  EndsWell [] = Unit
  EndsWell (s ∷ []) = ends_in_newline s ≡ false
  EndsWell (s ∷ t ∷ l) = EndsWell (t ∷ l)

  abbrev pub encoded : List Bytes → Bytes
  encoded l = encode nasties splitchars (map some l)

  decode_word :
      (fuel : ℕ) (s : Bytes) (w : Word) (x : Bytes)
      → getword splitchars s ≡ some w
      → unescape w.word ≡ some x
      → decode_from (suc fuel) splitchars true s
        ≡ put_word (some x) (decode_from fuel splitchars true w.rest)
  unfolding decode_from
  decode_word fuel s w x e u = rw (e, decode_from) (rw u)

  decode_from_nil : (fuel : ℕ) → 0 < fuel → decode_from fuel splitchars true [] ≡ some []
  unfolding decode_from getword skip_separators
  decode_from_nil zero h = absurd (omega arith)
  decode_from_nil (suc fuel) h = refl

  decode_from-encode :
      (l : List Bytes) (fuel : ℕ)
      → length l < fuel
      → EndsWell l
      → decode_from fuel splitchars true (encoded l) ≡ some l
  unfolding encode
  decode_from-encode l zero h e = absurd (omega arith)
  decode_from-encode [] (suc fuel) h e = decode_from_nil (suc fuel) (omega arith)
  decode_from-encode (s ∷ []) (suc fuel) h e =
      decode_word fuel _ _ s (getword-escape_end s e) (unescape-escape nasties s)
      ∙ ap (put_word (some s)) (decode_from_nil fuel (omega arith))
  decode_from-encode (s ∷ t ∷ l) (suc fuel) h e =
      decode_word fuel _ _ s (getword-escape_separator s (encoded (t ∷ l)))
        (unescape-escape nasties s)
      ∙ ap (put_word (some s))
          (decode_from_separator fuel _ ∙ decode_from-encode (t ∷ l) fuel (omega arith) e)

  escape-length : (s : Bytes) → 0 < length (escape nasties s)
  escape-length s = let h = escape-StartsWord s in rw h.splits (omega arith)

  length-encoded : (l : List Bytes) → length l ≤ length (encoded l)
  unfolding encode
  length-encoded [] = omega arith
  length-encoded (s ∷ []) = escape-length s
  length-encoded (s ∷ t ∷ l) = omega (
    arith,
    length-append {0} (escape nasties s) (splitchars.first ∷ encoded (t ∷ l)),
    escape-length s,
    length-encoded (t ∷ l),
  )

  -- Decoding an encoded list of texts gives the list back, if the separators are quoted inside words,
  -- none of them is special, and the last word is not one that is written with backslashes and ends
  -- in a quoted line feed. The fuel is enough, and no text is run past its end.
  pub decode-encode_list :
      (l : List Bytes) → EndsWell l → decode splitchars true (encoded l) ≡ some l
  unfolding decode
  decode-encode_list l h =
      decode_from-encode l (length (encoded l) + 1) (omega (arith, length-encoded l)) h

  getword-escape_newline :
      (s : Bytes) → ends_in_newline s ≡ true → getword splitchars (escape nasties s) ≡ none
  getword-escape_newline s h =
      ap (getword splitchars) (sym (append-nil (escape nasties s)))
      ∙ getword_starts (escape nasties s) [] (escape-StartsWord s)
      ∙ rw (loop-escape s [], h, loop_end, append-nil) (ground arith)

  decode_none :
      (fuel : ℕ) (s : Bytes)
      → 0 < fuel
      → getword splitchars s ≡ none
      → decode_from fuel splitchars true s ≡ some []
  unfolding decode_from
  decode_none zero s p h = absurd (omega arith)
  decode_none (suc fuel) s p h = rw (h, decode_from)

  -- With masks of which the first separator is a separator, every separator is quoted inside words
  -- and none is special, a last word that is written with backslashes and ends in a quoted line
  -- feed is lost: the list of just that word decodes to the empty list.
  pub decode_loses_newline :
      (s : Bytes) → ends_in_newline s ≡ true → decode splitchars true (encoded (s ∷ [])) ≡ some []
  unfolding decode encode
  decode_loses_newline s h =
      decode_none (length (escape nasties s) + 1) _ (omega arith) (getword-escape_newline s h)
