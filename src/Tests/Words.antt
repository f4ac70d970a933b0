-- ===== src/Tests/Words.antt =====
-- utils/wvstringmask.cc and utils/wvtclstring.cc at concrete inputs.
use wvstreams.Prelude.{
  ℕ, true, some, none, List, [], ◌∷◌, ◌++◌, map, Bytes, codes, length, ◌≡◌, refl, arith,
}
use wvstreams.StringMask
use wvstreams.StringMask.{WvStringMask, contains}
use wvstreams.StringMask.Members.{occurs, from_str-occurs}
use wvstreams.TclString
use wvstreams.TclString.Escape.{unescape-escape}
use wvstreams.TclString.Size.{length-escape}
use wvstreams.TclString.Words.{AreSeparators}
use wvstreams.TclString.Lists.{decode-encode_list, decode_loses_newline}
use wvstreams.TclString.Quotes.{getword_quoted, decode_total}

mask_program : Unit {0}
unfolding StringMask.zap StringMask.to_unsigned StringMask.update StringMask.set StringMask.set_each
    StringMask.set_str StringMask.from_str contains
mask_program = tt

tcl_program : Unit {0}
unfolding mask_program TclString.always_nasty TclString.is_nasty TclString.scan_char TclString.scan
    TclString.backslashed TclString.method TclString.escape TclString.escape_size
    TclString.unbackslash TclString.unescape TclString.word_char TclString.word_loop
    TclString.skip_separators TclString.getword TclString.decode_from TclString.decode
    TclString.encode
tcl_program = tt

-- WVTCL_NASTY_SPACES and WVTCL_SPLITCHARS
abbrev spaces : WvStringMask
spaces = record { member = λ c. occurs c (codes " \t\n\r"); first = 32 }

encoded_words :
    TclString.encode spaces spaces
      (map some (codes "jabba" ∷ codes "crab poody-doo" ∷ codes "pooky{doo" ∷ [] ∷ []))
    ≡ codes "jabba {crab poody-doo} pooky\\{doo {}"
unfolding tcl_program
encoded_words = refl

from_str-occurs_example :
    (m : WvStringMask) × (StringMask.from_str (some (codes "ab")) ≡ some m)
    × ((c : ℕ) → contains m c ≡ occurs c (codes "ab"))
    × (m.first ≡ b'a')
from_str-occurs_example = from_str-occurs (codes "ab") (omega arith)

spaces-AreSeparators : AreSeparators spaces spaces
unfolding contains TclString.always_nasty
spaces-AreSeparators = record {
  separates = refl;
  quoted = λ c h. h;
  not_special = λ c h. ground arith;
}

abbrev words : List Bytes
words = codes "jabba" ∷ codes "crab poody-doo" ∷ codes "pooky{doo" ∷ [] ∷ []

decode-encode_list_example :
    TclString.decode spaces true (TclString.encode spaces spaces (map some words)) ≡ some words
decode-encode_list_example =
    decode-encode_list spaces spaces spaces-AreSeparators words (unfold tcl_program in refl)

decode_loses_newline_example :
    TclString.decode spaces true (TclString.encode spaces spaces (some (codes "{\n") ∷ []))
    ≡ some []
decode_loses_newline_example =
    decode_loses_newline spaces spaces spaces-AreSeparators (codes "{\n")
      (unfold tcl_program in refl)

unescape-escape_example :
    TclString.unescape (TclString.escape spaces (codes "big}monkey {potatoes"))
    ≡ some (codes "big}monkey {potatoes")
unescape-escape_example = unescape-escape spaces (codes "big}monkey {potatoes")

length-escape_example :
    length (TclString.escape spaces (codes "hammer\\}time"))
    ≡ TclString.escape_size spaces (codes "hammer\\}time")
length-escape_example = length-escape spaces (codes "hammer\\}time")

getword_quoted_example : TclString.getword spaces (codes " " ++ b'"' ∷ codes "element 3\"") ≡ none
unfolding contains
getword_quoted_example = getword_quoted spaces (codes " ") (codes "element 3\"") (refl, tt) refl

decode_total_example : (ws : List Bytes) × (TclString.decode spaces true (codes "a {b") ≡ some ws)
decode_total_example = decode_total spaces true (codes "a {b")

-- the list of the header file that has exactly three elements
documented_list :
    TclString.decode spaces true (codes "x1 {} \"element 3\"") ≡ some (codes "x1" ∷ [] ∷ [])
unfolding tcl_program
documented_list = refl
