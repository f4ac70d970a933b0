-- ===== src/UrlCode/RoundTrip.antt =====
-- url_decode reads what url_encode wrote.
use wvstreams.Prelude.{
  ℕ, zero, suc, ◌/◌, ◌%◌, ◌≤◌, ◌<◌, Bool, true, false, some, [], ◌∷◌, ◌++◌, Bytes, All, length,
  length-append, ◌==◌, ◌≡◌, ◌≢◌, refl, ap, ◌∙◌, arith, Bool-cases, inl, inr,
}
use wvstreams.Ctype.{isalnum, isspace, isdigit, isupper, islower, toupper, tohex}
use wvstreams.UrlCode.{
  strchr, trim_end, trim_start, trim_string, stays, url_char, url_encode, hex, pair, decode_step,
  decode_loop, c_string, url_decode,
}

-- a byte that a text can hold
abbrev pub IsText : ℕ → Type 0
IsText c = (1 ≤ c) × (c < 256)

strchr-tohex : (d : ℕ) → d < 16 → strchr hex (toupper (tohex d 55)) ≡ some d
unfolding strchr toupper tohex islower
strchr-tohex d h = ground (arith, h)

plus_quoted : stays [] 43 ≡ false
unfolding stays isalnum strchr isdigit isupper islower
plus_quoted = refl

percent_quoted : stays [] 37 ≡ false
unfolding stays isalnum strchr isdigit isupper islower
percent_quoted = refl

stays-isspace : (c : ℕ) → stays [] c ≡ true → isspace c ≡ false
unfolding stays isalnum strchr isdigit isupper islower isspace
stays-isspace c h = ground (arith, h)

tohex-isspace : (d : ℕ) → d < 16 → isspace (tohex d 55) ≡ false
unfolding tohex isspace
tohex-isspace d h = ground (arith, h)

percent-isspace : isspace 37 ≡ false
unfolding isspace
percent-isspace = refl

-- one round for one character
round_plain :
    (no_space : Bool) (rounds c : ℕ) (rest : Bytes)
    → c ≢ 43
    → c ≢ 37
    → decode_loop (suc rounds) no_space (c ∷ rest) ≡ c ∷ decode_loop rounds no_space rest
unfolding decode_loop decode_step
round_plain no_space rounds c rest h k =
    let no_plus : (c == 43) ≡ false = ground (arith, h) in
    let no_percent : (c == 37) ≡ false = ground (arith, k) in rw (no_plus, no_percent) refl

round_digits :
    (no_space : Bool) (rounds c : ℕ) (rest : Bytes)
    → c < 256
    → decode_loop (suc rounds) no_space (37 ∷ tohex (c / 16) 55 ∷ tohex (c % 16) 55 ∷ rest)
      ≡ c ∷ decode_loop rounds no_space rest
unfolding decode_loop decode_step pair
round_digits no_space rounds c rest h =
    let high = strchr-tohex (c / 16) (omega (arith, h)) in
    let low = strchr-tohex (c % 16) (omega arith) in
    rw (high, low) (ap (λ n. n ∷ decode_loop rounds no_space rest) (omega arith))

-- The encoded text of one character is read back in one round, and holds no white space.
round_char :
    (no_space : Bool) (rounds c : ℕ) (rest : Bytes)
    → c < 256
    → decode_loop (suc rounds) no_space (url_char [] c ++ rest)
      ≡ c ∷ decode_loop rounds no_space rest
unfolding url_char
round_char no_space rounds c rest h = elim (Bool-cases (stays [] c)) [
  | inl s ↦ rw s (
      round_plain no_space rounds c rest (λ e. cc (s, ap (stays []) e, plus_quoted))
        (λ e. cc (s, ap (stays []) e, percent_quoted)))
  | inr s ↦ rw s (round_digits no_space rounds c rest h)
]

abbrev NoSpace : ℕ → Type 0
NoSpace c = isspace c ≡ false

char_NoSpace : (c : ℕ) → c < 256 → All NoSpace (url_char [] c)
unfolding url_char
char_NoSpace c h = elim (Bool-cases (stays [] c)) [
  | inl s ↦ rw s (stays-isspace c s, tt)
  | inr s ↦ rw s (
    percent-isspace,
    (tohex-isspace (c / 16) (omega (arith, h)), (tohex-isspace (c % 16) (omega arith), tt)),
  )
]

append-NoSpace : (v w : Bytes) → All NoSpace v → All NoSpace w → All NoSpace (v ++ w)
append-NoSpace [] w h k = k
append-NoSpace (x ∷ v) w (h, hs) k = (h, append-NoSpace v w hs k)

url_encode-NoSpace : (text : Bytes) → All IsText text → All NoSpace (url_encode [] text)
unfolding url_encode
url_encode-NoSpace [] h = tt
url_encode-NoSpace (c ∷ text) (h, hs) =
    append-NoSpace (url_char [] c) (url_encode [] text) (char_NoSpace c (h.1))
      (url_encode-NoSpace text hs)

trim_end-NoSpace : (text : Bytes) → All NoSpace text → trim_end text ≡ text
unfolding trim_end
trim_end-NoSpace [] h = refl
trim_end-NoSpace (c ∷ text) (h, hs) = rw (trim_end-NoSpace text hs, h) (ground arith)

trim_start-NoSpace : (text : Bytes) → All NoSpace text → trim_start text ≡ text
unfolding trim_start
trim_start-NoSpace [] h = refl
trim_start-NoSpace (c ∷ text) (h, hs) = rw h refl

decode_loop-url_encode :
    (no_space : Bool) (rounds : ℕ) (text : Bytes)
    → All IsText text
    → length text ≤ rounds
    → decode_loop rounds no_space (url_encode [] text) ≡ text
unfolding url_encode
decode_loop-url_encode no_space zero [] h k = unfold decode_loop in refl
decode_loop-url_encode no_space (suc rounds) [] h k = unfold decode_loop in refl
decode_loop-url_encode no_space zero (c ∷ text) h k = absurd (omega (arith, k))
decode_loop-url_encode no_space (suc rounds) (c ∷ text) (h, hs) k =
    round_char no_space rounds c (url_encode [] text) (h.1)
    ∙ ap (◌∷◌ c) (decode_loop-url_encode no_space rounds text hs (omega (arith, k)))

char_size : (c : ℕ) → 1 ≤ length (url_char [] c)
unfolding url_char
char_size c = elim (Bool-cases (stays [] c)) [
  | inl s ↦ rw s (omega arith)
  | inr s ↦ rw s (omega arith)
]

length-url_encode : (text : Bytes) → length text ≤ length (url_encode [] text)
unfolding url_encode
length-url_encode [] = omega arith
length-url_encode (c ∷ text) = omega (
  arith,
  length-url_encode text,
  char_size c,
  length-append {0} (url_char [] c) (url_encode [] text),
)

c_string-IsText : (text : Bytes) → All IsText text → c_string text ≡ text
unfolding c_string
c_string-IsText [] h = refl
c_string-IsText (c ∷ text) (h, hs) =
    let nonzero : (c == 0) ≡ false = ground (arith, h.0) in
    rw (nonzero, c_string-IsText text hs) refl

-- Every text is read back, with and without plus signs for blanks.
pub url_decode-url_encode :
    (no_space : Bool) (text : Bytes)
    → All IsText text
    → url_decode no_space (url_encode [] text) ≡ text
unfolding url_decode trim_string
url_decode-url_encode no_space text h =
    let none = url_encode-NoSpace text h in
    rw
      (
        trim_end-NoSpace (url_encode [] text) none,
        trim_start-NoSpace (url_encode [] text) none,
        decode_loop-url_encode no_space (length (url_encode [] text)) text h
            (length-url_encode text),
      )
      (c_string-IsText text h)
