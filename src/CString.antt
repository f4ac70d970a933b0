-- ===== src/CString.antt =====
-- utils/wvstrutils.cc: cstr_escape, which writes bytes as the text of a C string constant, and
-- cstr_unescape, which reads a row of such constants. A text is the list of its characters, of which none
-- is the zero character.
pub mod Escapes
pub mod RoundTrip
use wvstreams.Prelude.{
  ◌>>=◌, ℕ, zero, suc, ◌+◌, ◌-◌, ◌*◌, ◌/◌, ◌%◌, Bool, true, false, not, ◌&&◌, Option, none, some,
  List, [], ◌∷◌, ◌++◌, Bytes, length, take, drop, ltb, leb, ◌==◌, if◌then◌else◌,
}
use wvstreams.Ctype.{isspace, tohex}

-- CStrExtraEscape, without the entry that ends the table
pub record ExtraEscape : Type 0 where
  pub ch : ℕ
  pub esc : Bytes

-- CSTR_TCLSTR_ESCAPES
abbrev pub tclstr_escapes : List ExtraEscape
tclstr_escapes =
    record { ch = b'{'; esc = b'\\' ∷ b'<' ∷ [] }
    ∷ record { ch = b'}'; esc = b'\\' ∷ b'>' ∷ [] }
    ∷ []

-- the letter behind the backslash in the table of cstr_escape_char
unfoldable pub named_escape : ℕ → Option ℕ
named_escape ch =
    if ch == 0
    then some b'0'
    else if ch == 7
    then some b'a'
    else if ch == 8
    then some b'b'
    else if ch == 9
    then some b't'
    else if ch == 10
    then some b'n'
    else if ch == 11
    then some b'v'
    else if ch == 13
    then some b'r'
    else if ch == 34
    then some 34
    else if ch == 92
    then some 92
    else none

-- cstr_escape_char, whose table has 256 entries
unfoldable pub cstr_escape_char : ℕ → Bytes
cstr_escape_char ch = elim (named_escape ch) [
  | some e ↦ 92 ∷ e ∷ []
  | none ↦
      if leb 32 ch && leb ch 126
      then ch ∷ []
      else 92 ∷ b'x' ∷ tohex (ch / 16) (b'A' - 10) ∷ tohex (ch % 16) (b'A' - 10) ∷ []
]

-- hex_digit_val, with none for -1
unfoldable pub hex_digit_val : ℕ → Option ℕ
hex_digit_val ch =
    if leb b'0' ch && leb ch b'9'
    then some (ch - b'0')
    else if leb b'A' ch && leb ch b'F'
    then some (ch - b'A' + 10)
    else if leb b'a' ch && leb ch b'f'
    then some (ch - b'a' + 10)
    else none

-- the cases of cstr_unescape_char's switch for one letter
unfoldable pub named_char : ℕ → Option ℕ
named_char e =
    if e == 34
    then some 34
    else if e == b't'
    then some 9
    else if e == b'n'
    then some 10
    else if e == 92
    then some 92
    else if e == b'r'
    then some 13
    else if e == b'a'
    then some 7
    else if e == b'v'
    then some 11
    else if e == b'b'
    then some 8
    else if e == b'0'
    then some 0
    else none

-- two digits behind \x
unfoldable pub hex_pair : Bytes → Option (ℕ × Bytes)
hex_pair (h ∷ l ∷ rest) = do
  high ← hex_digit_val h
  low ← hex_digit_val l
  some (high * 16 + low, rest)
hex_pair other = none

-- behind a backslash
unfoldable pub escaped_char : Bytes → Option (ℕ × Bytes)
escaped_char [] = none
escaped_char (e ∷ rest) = elim (named_char e) [
  | some ch ↦ some (ch, rest)
  | none ↦ if e == b'x' then hex_pair rest else none
]

-- cstr_unescape_char; `none` is false
unfoldable pub cstr_unescape_char : Bytes → Option (ℕ × Bytes)
cstr_unescape_char [] = none
cstr_unescape_char (c ∷ rest) = if c == 92 then escaped_char rest else some (c, rest)

-- the escape of a character in the caller's table
unfoldable pub extra_escape : List ExtraEscape → ℕ → Option Bytes
extra_escape [] ch = none
extra_escape (extra ∷ others) ch =
    let later = extra_escape others ch in if ch == extra.ch then some extra.esc else later

unfoldable pub escape_char : List ExtraEscape → ℕ → Bytes
escape_char extras ch = elim (extra_escape extras ch) [
  | some esc ↦ esc
  | none ↦ cstr_escape_char ch
]

unfoldable pub escape_loop : List ExtraEscape → Bytes → Bytes
escape_loop extras [] = []
escape_loop extras (ch ∷ cdata) = escape_char extras ch ++ escape_loop extras cdata

unfoldable pub cstr_escape : List ExtraEscape → Bytes → Bytes
cstr_escape extras cdata = 34 ∷ (escape_loop extras cdata ++ (34 ∷ []))

-- strncmp with the whole of `esc`, and what is left behind it
unfoldable pub behind : Bytes → Bytes → Option Bytes
behind [] q = some q
behind (e ∷ esc) [] = none
behind (e ∷ esc) (c ∷ q) = let rest = behind esc q in if c == e then rest else none

unfoldable pub extra_unescape : List ExtraEscape → Bytes → Option (ℕ × Bytes)
extra_unescape [] q = none
extra_unescape (extra ∷ others) q =
    let later = extra_unescape others q in
    elim (behind extra.esc q) [ some rest ↦ some (extra.ch, rest) | none ↦ later ]

unfoldable pub unescape_char : List ExtraEscape → Bytes → Option (ℕ × Bytes)
unescape_char extras q = elim (extra_unescape extras q) [
  | some r ↦ some r
  | none ↦ cstr_unescape_char q
]

-- the characters up to the closing quote; each takes something off the text
unfoldable pub quoted : List ExtraEscape → ℕ → Bytes → Option (Bytes × Bytes)
quoted extras zero q = none
quoted extras (suc rounds) [] = none
quoted extras (suc rounds) (c ∷ q) = elim (c == 34) [
  | true ↦ some ([], q)
  | false ↦
      unescape_char extras (c ∷ q) >>= λ r. quoted extras rounds r.1 >>= λ s. some (r.0 ∷ s.0, s.1)
]

unfoldable pub skip_space : Bytes → Bytes
skip_space [] = []
skip_space (c ∷ q) = let rest = skip_space q in if isspace c then rest else c ∷ q

-- behind an opening quote, or `none` where there is another character
unfoldable pub opened : Bytes → Option Bytes
opened [] = none
opened (c ∷ q) = if c == 34 then some q else none

-- the constants, one after the other; `none` is a misformatted text
unfoldable pub constants : List ExtraEscape → ℕ → Bytes → Option Bytes
constants extras zero q = none
constants extras (suc rounds) q = elim (length (skip_space q) == 0) [
  | true ↦ some []
  | false ↦ opened (skip_space q) >>= λ inside. quoted extras (length inside + 1) inside >>= λ r.
      constants extras rounds r.1 >>= λ others. some (r.0 ++ others)
]

pub record Unescaped : Type 0 where
  pub success : Bool
  pub size : ℕ
  pub written : Bytes

-- cstr_unescape into an array; of a misformatted text what is written is not told
unfoldable pub cstr_unescape : List ExtraEscape → Bytes → ℕ → Unescaped
cstr_unescape extras cstr max_size = elim (constants extras (length cstr + 1) cstr) [
  | none ↦ record { success = false; size = 0; written = [] }
  | some bytes ↦ record {
    success = leb (length bytes) max_size;
    size = length bytes;
    written = take max_size bytes;
  }
]
