-- ===== src/Hex/Stream.antt =====
-- What the decoder reads, against a table of the digits: pairs of digits with white space anywhere.
use wvstreams.Prelude.{
  ℕ, suc, ◌+◌, ◌*◌, ◌%◌, ◌<◌, Bool, true, false, not, ◌&&◌, ◌||◌, [], ◌∷◌, ◌++◌, Bytes, codes,
  append-nil, All, ◌==◌, if◌then◌else◌, ◌≡◌, refl, ap, ◌∙◌, arith, Bool-cases, inl, inr,
}
use wvstreams.Ctype.{isdigit, isupper, isxdigit, isspace, tolower}
use wvstreams.Encoder.{Outcome}
use wvstreams.Encoder.Loop.{next, bad, failed, emit, loop, loop-append}
use wvstreams.Hex.{HexDecoder, new_decoder, fromhex, decode_char, decode}

-- the place of a character in a table
abbrev index : Bytes → ℕ → ℕ
index [] c = 0
index (x ∷ table) c = if x == c then 0 else suc (index table c)

unfoldable pub digit_value : ℕ → ℕ
digit_value c = index (codes "0123456789abcdef") (tolower c)

fromhex_lem : (c : ℕ) → isxdigit c ≡ true → fromhex c ≡ digit_value c
unfolding fromhex digit_value isxdigit isdigit isupper tolower
fromhex_lem c h = ground arith

digit_value_small : (c : ℕ) → isxdigit c ≡ true → digit_value c < 16
unfolding digit_value isxdigit isdigit isupper tolower
digit_value_small c h = ground arith

-- the values of the digits of a text
abbrev pub digits : Bytes → Bytes
digits [] = []
digits (c ∷ text) = if isspace c then digits text else digit_value c ∷ digits text

-- two digits to a byte, the high one first
abbrev pub pairs : Bytes → Bytes
pairs [] = []
pairs (h ∷ []) = []
pairs (h ∷ l ∷ ds) = (h * 16 + l) ∷ pairs ds

abbrev pub is_odd : Bytes → Bool
is_odd [] = false
is_odd (d ∷ ds) = not (is_odd ds)

-- a digit or white space
abbrev pub IsHex : ℕ → Type 0
IsHex c = (isxdigit c || isspace c) ≡ true

-- the digit that waits for another
abbrev pending : HexDecoder → Bytes
pending s = if s.issecond then s.first ∷ [] else []

abbrev Yields : Bytes → Outcome HexDecoder → Type 0
Yields ds o =
    (o.out ≡ pairs ds) × (o.state.issecond ≡ is_odd ds) × (o.success ≡ true) × (o.rest ≡ [])

char_first :
    (first c : ℕ)
    → isxdigit c ≡ true
    → decode_char (record { issecond = false; first = first }) c
      ≡ next (record { issecond = true; first = digit_value c }) [] false
unfolding decode_char
char_first first c h = let value = fromhex_lem c h in rw h (rw value refl)

char_second :
    (first c : ℕ)
    → isxdigit c ≡ true
    → first < 16
    → decode_char (record { issecond = true; first = first }) c
      ≡ next (record { issecond = false; first = first }) ((first * 16 + digit_value c) ∷ []) false
unfolding decode_char
char_second first c h small =
    let value = fromhex_lem c h in
    let byte : (first * 16 + digit_value c) % 256 ≡ first * 16 + digit_value c =
      omega (arith, small, digit_value_small c h) in
    rw h (rw value (rw byte refl))

char_space :
    (s : HexDecoder) (c : ℕ)
    → isxdigit c ≡ false
    → isspace c ≡ true
    → decode_char s c ≡ next s [] false
unfolding decode_char
char_space s c other h = rw other (rw h refl)

digit_no_space : (c : ℕ) → isxdigit c ≡ true → isspace c ≡ false
unfolding isxdigit isspace isdigit
digit_no_space c h = ground (arith, h)

loop_next :
    (s t : HexDecoder) (c : ℕ) (text bytes : Bytes)
    → decode_char s c ≡ next t bytes false
    → loop decode_char s (c ∷ text) ≡ emit bytes false (loop decode_char t text)
unfolding loop
loop_next s t c text bytes h = rw (h, loop) refl

Yields-pair :
    (h l : ℕ) (ds : Bytes) (o : Outcome HexDecoder)
    → Yields ds o
    → Yields (h ∷ l ∷ ds) (emit ((h * 16 + l) ∷ []) false o)
Yields-pair h l ds o (out, odd, ok, rest) =
    (ap (◌∷◌ (h * 16 + l)) out, odd ∙ not_not (is_odd ds), ok, rest)
  where
    not_not : (b : Bool) → b ≡ not (not b)
    not_not true = refl
    not_not false = refl

loop_reads :
    (issecond : Bool) (first : ℕ) (text : Bytes)
    → first < 16
    → All IsHex text
    → Yields
        (pending (record { issecond = issecond; first = first }) ++ digits text)
        (loop decode_char (record { issecond = issecond; first = first }) text)
loop_reads false first [] w h = unfold loop in (refl, refl, refl, refl)
loop_reads true first [] w h = unfold loop in (refl, refl, refl, refl)
loop_reads false first (c ∷ text) w h = elim (Bool-cases (isxdigit c)) [
  | inr n ↦
      let space : isspace c ≡ true = ground (arith, h.0, n) in
      rw
        (loop_next _ _ c text []
          (char_space (record { issecond = false; first = first }) c n space))
        (rw space (loop_reads false first text w h.1))
  | inl d ↦ rw (digit_no_space c d) (
      rw (loop_next _ _ c text [] (char_first first c d))
        (loop_reads true (digit_value c) text (digit_value_small c d) h.1))
]
loop_reads true first (c ∷ text) w h = elim (Bool-cases (isxdigit c)) [
  | inr n ↦
      let space : isspace c ≡ true = ground (arith, h.0, n) in
      rw
        (loop_next _ _ c text [] (char_space (record { issecond = true; first = first }) c n space))
        (rw space (loop_reads true first text w h.1))
  | inl d ↦ rw (digit_no_space c d) (
      rw (loop_next _ _ c text _ (char_second first c d w)) (
        Yields-pair first (digit_value c) (digits text)
          (loop decode_char (record { issecond = false; first = first }) text)
          (loop_reads false first text w h.1)))
]

refused :
    (s : HexDecoder) (c : ℕ) → isxdigit c ≡ false → isspace c ≡ false → decode_char s c ≡ bad s
unfolding decode_char
refused s c n m = rw n (rw m refl)

stops :
    (s : HexDecoder) (c : ℕ) (rest : Bytes)
    → isxdigit c ≡ false
    → isspace c ≡ false
    → loop decode_char s (c ∷ rest) ≡ failed s rest
unfolding loop
stops s c rest n m = rw (refused s c n m, loop) refl

-- On a text of hexadecimal digits in either case with white space anywhere, a new decoder writes
-- the byte of each pair of digits as a table of the sixteen digits gives it, reads all of the
-- text, and succeeds unless it is to flush with one digit left over; where the text goes on with
-- any other character, the call has written the same bytes, fails, and leaves what is behind that
-- character unread.
pub decode_lem :
    (text : Bytes) (c : ℕ) (rest : Bytes) (flush : Bool)
    → All IsHex text
    → isxdigit c ≡ false
    → isspace c ≡ false
    → ((decode new_decoder text flush).out ≡ pairs (digits text))
      × ((decode new_decoder text flush).success ≡ not (flush && is_odd (digits text)))
      × ((decode new_decoder text flush).rest ≡ [])
      × ((decode new_decoder (text ++ c ∷ rest) flush).out ≡ pairs (digits text))
      × ((decode new_decoder (text ++ c ∷ rest) flush).success ≡ false)
      × ((decode new_decoder (text ++ c ∷ rest) flush).rest ≡ rest)
unfolding decode
decode_lem text c rest flush h n m =
    let (out, odd, ok, all) = loop_reads false 0 text (omega arith) h in
    let stopped = loop-append decode_char new_decoder text (c ∷ rest) in
    let stop = stops (loop decode_char new_decoder text).state c rest n m in
    (
      out,
      rw (odd, ok) refl,
      all,
      rw stopped (rw ok (rw stop (append-nil (loop decode_char new_decoder text).out ∙ out))),
      rw stopped (rw ok (rw stop refl)),
      rw stopped (rw ok (rw stop refl)),
    )
