-- ===== src/UrlCode.antt =====
-- utils/wvstrutils.cc: url_encode, url_decode and the trim_string that it calls. A text is the list of its
-- characters, of which none is the zero character. An empty or null `unsafe` is the empty list.
pub mod RoundTrip
use wvstreams.Prelude.{
  ℕ, zero, suc, ◌+◌, ◌-◌, ◌*◌, ◌/◌, ◌%◌, Bool, true, false, not, ◌&&◌, ◌||◌, Option, none, some,
  List, [], ◌∷◌, ◌++◌, Bytes, length, codes, ltb, leb, ◌==◌, if◌then◌else◌,
}
use wvstreams.Ctype.{isalnum, isspace, toupper, tohex}

-- strchr, as the place of the character
unfoldable pub strchr : Bytes → ℕ → Option ℕ
strchr [] c = none
strchr (x ∷ text) c =
    let later = strchr text c in
    if x == c then some 0 else elim later [ some i ↦ some (i + 1) | none ↦ none ]

abbrev pub found : Option ℕ → Bool
found none = false
found (some i) = true

-- the white space at the end
unfoldable pub trim_end : Bytes → Bytes
trim_end [] = []
trim_end (c ∷ text) =
    let rest = trim_end text in if length rest == 0 && isspace c then [] else c ∷ rest

unfoldable pub trim_start : Bytes → Bytes
trim_start [] = []
trim_start (c ∷ text) = let rest = trim_start text in if isspace c then rest else c ∷ text

unfoldable pub trim_string : Bytes → Bytes
trim_string text = trim_start (trim_end text)

-- url_encode's characters that stay; "_.!~*'()-" are spelled by their codes
abbrev pub marks : Bytes
marks = 95 ∷ 46 ∷ 33 ∷ 126 ∷ 42 ∷ 39 ∷ 40 ∷ 41 ∷ 45 ∷ []

unfoldable pub stays : Bytes → ℕ → Bool
stays unsafe c =
    (if length unsafe == 0
      then isalnum c || found (strchr marks c)
      else not (found (strchr unsafe c)))
    && not (c == 37)

unfoldable pub url_char : Bytes → ℕ → Bytes
url_char unsafe c =
    if stays unsafe c
    then c ∷ []
    else 37 ∷ tohex (c / 16) (b'A' - 10) ∷ tohex (c % 16) (b'A' - 10) ∷ []

unfoldable pub url_encode : Bytes → Bytes → Bytes
url_encode unsafe [] = []
url_encode unsafe (c ∷ text) = url_char unsafe c ++ url_encode unsafe text

abbrev pub hex : Bytes
hex = codes "0123456789ABCDEF"

-- the character of two digits, where they are digits
abbrev pub both : Option ℕ → Option ℕ → Bytes
both (some i) (some j) = (i * 16 + j) ∷ []
both (some i) none = []
both none j = []

-- the two digits behind a percent sign, where there are two characters
unfoldable pub pair : Bytes → Option (Bytes × Bytes)
pair (h ∷ l ∷ text) = some (both (strchr hex (toupper h)) (strchr hex (toupper l)), text)
pair other = none

-- what a round of the loop writes, and what it leaves
unfoldable pub decode_step : Bool → ℕ → Bytes → Bytes × Bytes
decode_step no_space c text =
    if c == 43 && not no_space
    then (32 ∷ [], text)
    else if c == 37
    then elim (pair text) [ some r ↦ r | none ↦ (c ∷ [], text) ]
    else (c ∷ [], text)

-- The loop of url_decode. Each round takes something off the text.
unfoldable pub decode_loop : ℕ → Bool → Bytes → Bytes
decode_loop zero no_space text = []
decode_loop (suc rounds) no_space [] = []
decode_loop (suc rounds) no_space (c ∷ text) =
    let s = decode_step no_space c text in s.0 ++ decode_loop rounds no_space s.1

-- the text up to the zero character that ends it
unfoldable pub c_string : Bytes → Bytes
c_string [] = []
c_string (c ∷ text) = let rest = c_string text in if c == 0 then [] else c ∷ rest

unfoldable pub url_decode : Bool → Bytes → Bytes
url_decode no_space text =
    let trimmed = trim_string text in c_string (decode_loop (length trimmed) no_space trimmed)
