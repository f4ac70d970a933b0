-- ===== src/CString/Escapes.antt =====
-- One character that is escaped is read back.
use wvstreams.Prelude.{
  ℕ, ◌/◌, ◌%◌, ◌<◌, true, false, ◌&&◌, none, some, List, [], ◌∷◌, ◌++◌, Bytes, leb, ◌==◌, ◌≡◌, ◌≢◌,
  refl, ap, ◌∙◌, arith, Bool-cases, Option-cases, inl, inr,
}
use wvstreams.Ctype.{tohex}
use wvstreams.CString.{
  ExtraEscape, tclstr_escapes, named_escape, cstr_escape_char, hex_digit_val, named_char, hex_pair,
  escaped_char, cstr_unescape_char, extra_escape, escape_char, behind, extra_unescape,
  unescape_char,
}

hex_digit_val-tohex : (d : ℕ) → d < 16 → hex_digit_val (tohex d 55) ≡ some d
unfolding hex_digit_val tohex
hex_digit_val-tohex d h = ground (arith, h)

named_char-named_escape : (c e : ℕ) → named_escape c ≡ some e → named_char e ≡ some c
unfolding named_escape named_char
named_char-named_escape c e h = ground (arith, h)

-- The letter that leads to two digits is no name.
named_char_x : named_char b'x' ≡ none
unfolding named_char
named_char_x = refl

hex_pair-tohex :
    (c : ℕ) (rest : Bytes)
    → c < 256
    → hex_pair (tohex (c / 16) 55 ∷ tohex (c % 16) 55 ∷ rest) ≡ some (c, rest)
unfolding hex_pair
hex_pair-tohex c rest h =
    let high = hex_digit_val-tohex (c / 16) (omega (arith, h)) in
    let low = hex_digit_val-tohex (c % 16) (omega arith) in
    rw (high, low) (ap (λ n. some (n, rest)) (omega arith))

escaped_char_named :
    (c e : ℕ) (rest : Bytes) → named_escape c ≡ some e → escaped_char (e ∷ rest) ≡ some (c, rest)
unfolding escaped_char
escaped_char_named c e rest h = rw (named_char-named_escape c e h, escaped_char) refl

escaped_char_digits : (rest : Bytes) → escaped_char (b'x' ∷ rest) ≡ hex_pair rest
unfolding escaped_char named_char
escaped_char_digits rest = refl

not_backslash : (c : ℕ) → named_escape c ≡ none → c ≢ 92
unfolding named_escape
not_backslash c h e = ground (arith, h, e)

-- the three ways of the table
escape_named : (c e : ℕ) → named_escape c ≡ some e → cstr_escape_char c ≡ 92 ∷ e ∷ []
unfolding cstr_escape_char
escape_named c e h = rw (h, cstr_escape_char) refl

escape_plain :
    (c : ℕ) → named_escape c ≡ none → (leb 32 c && leb c 126) ≡ true → cstr_escape_char c ≡ c ∷ []
unfolding cstr_escape_char
escape_plain c h p = rw (h, cstr_escape_char) (rw p refl)

escape_digits :
    (c : ℕ)
    → named_escape c ≡ none
    → (leb 32 c && leb c 126) ≡ false
    → cstr_escape_char c ≡ 92 ∷ b'x' ∷ tohex (c / 16) 55 ∷ tohex (c % 16) 55 ∷ []
unfolding cstr_escape_char
escape_digits c h p = rw (h, cstr_escape_char) (rw p refl)

unescape_backslash : (rest : Bytes) → cstr_unescape_char (92 ∷ rest) ≡ escaped_char rest
unfolding cstr_unescape_char
unescape_backslash rest = refl

unescape_plain : (c : ℕ) (rest : Bytes) → c ≢ 92 → cstr_unescape_char (c ∷ rest) ≡ some (c, rest)
unfolding cstr_unescape_char
unescape_plain c rest h = let other : (c == 92) ≡ false = ground (arith, h) in rw other refl

pub cstr_unescape_char-escape :
    (c : ℕ) (rest : Bytes)
    → c < 256
    → cstr_unescape_char (cstr_escape_char c ++ rest) ≡ some (c, rest)
cstr_unescape_char-escape c rest h = elim (Option-cases (named_escape c)) [
  | inl n ↦ elim (Bool-cases (leb 32 c && leb c 126)) [
    | inl p ↦ rw (escape_plain c n p) (unescape_plain c rest (not_backslash c n))
    | inr p ↦ rw (escape_digits c n p) (
        unescape_backslash (b'x' ∷ tohex (c / 16) 55 ∷ tohex (c % 16) 55 ∷ rest)
        ∙ escaped_char_digits (tohex (c / 16) 55 ∷ tohex (c % 16) 55 ∷ rest)
        ∙ hex_pair-tohex c rest h)
  ]
  | inr s ↦
      rw (escape_named c (s.0) (s.1))
        (unescape_backslash (s.0 ∷ rest) ∙ escaped_char_named c (s.0) rest (s.1))
]

-- what is written begins with another character than the quote
abbrev pub Opens : Bytes → Type 0
Opens esc = (first : ℕ) × (others : Bytes) × (esc ≡ first ∷ others) × (first ≢ 34)

not_quote : (c : ℕ) → named_escape c ≡ none → c ≢ 34
unfolding named_escape
not_quote c h e = ground (arith, h, e)

cstr_escape_char-Opens : (c : ℕ) → Opens (cstr_escape_char c)
cstr_escape_char-Opens c = elim (Option-cases (named_escape c)) [
  | inl n ↦ elim (Bool-cases (leb 32 c && leb c 126)) [
    | inl p ↦ (c, [], escape_plain c n p, not_quote c n)
    | inr p ↦ (
      92,
      b'x' ∷ tohex (c / 16) 55 ∷ tohex (c % 16) 55 ∷ [],
      escape_digits c n p,
      λ e. omega (arith, e),
    )
  ]
  | inr s ↦ (92, s.0 ∷ [], escape_named c (s.0) (s.1), λ e. omega (arith, e))
]

-- where no sequence of the caller's table begins
other_extra :
    (extra : ExtraEscape) (others : List ExtraEscape) (q : Bytes)
    → behind extra.esc q ≡ none
    → extra_unescape (extra ∷ others) q ≡ extra_unescape others q
unfolding extra_unescape
other_extra extra others q h = rw (h, extra_unescape) refl

no_extra :
    (q : Bytes)
    → behind (92 ∷ 60 ∷ []) q ≡ none
    → behind (92 ∷ 62 ∷ []) q ≡ none
    → extra_unescape tclstr_escapes q ≡ none
no_extra q h k =
    other_extra (record { ch = b'{'; esc = 92 ∷ 60 ∷ [] })
      (record { ch = b'}'; esc = 92 ∷ 62 ∷ [] } ∷ []) q h
    ∙ other_extra (record { ch = b'}'; esc = 92 ∷ 62 ∷ [] }) [] q k
    ∙ unfold extra_unescape in refl

not_behind : (e c : ℕ) (esc q : Bytes) → c ≢ e → behind (e ∷ esc) (c ∷ q) ≡ none
unfolding behind
not_behind e c esc q h = let other : (c == e) ≡ false = ground (arith, h) in rw other refl

next_behind : (e c : ℕ) (q : Bytes) → c ≢ e → behind (92 ∷ e ∷ []) (92 ∷ c ∷ q) ≡ none
unfolding behind
next_behind e c q h = let other : (c == e) ≡ false = ground (arith, h) in rw other refl

miss_first : (c : ℕ) (rest : Bytes) → c ≢ 92 → extra_unescape tclstr_escapes (c ∷ rest) ≡ none
miss_first c rest h =
    no_extra (c ∷ rest) (not_behind 92 c (60 ∷ []) rest h) (not_behind 92 c (62 ∷ []) rest h)

miss_second :
    (e : ℕ) (rest : Bytes) → e ≢ 60 → e ≢ 62 → extra_unescape tclstr_escapes (92 ∷ e ∷ rest) ≡ none
miss_second e rest h k =
    no_extra (92 ∷ e ∷ rest) (next_behind 60 e rest h) (next_behind 62 e rest k)

no_angle : (c e : ℕ) → named_escape c ≡ some e → (e ≢ 60) × (e ≢ 62)
unfolding named_escape
no_angle c e h = (λ k. ground (arith, h, k), λ k. ground (arith, h, k))

miss : (c : ℕ) (rest : Bytes) → extra_unescape tclstr_escapes (cstr_escape_char c ++ rest) ≡ none
miss c rest = elim (Option-cases (named_escape c)) [
  | inl n ↦ elim (Bool-cases (leb 32 c && leb c 126)) [
    | inl p ↦ rw (escape_plain c n p) (miss_first c rest (not_backslash c n))
    | inr p ↦ rw (escape_digits c n p) (
        miss_second b'x' (tohex (c / 16) 55 ∷ tohex (c % 16) 55 ∷ rest) (λ e. omega (arith, e))
          (λ e. omega (arith, e)))
  ]
  | inr s ↦
      let other = no_angle c (s.0) (s.1) in
      rw (escape_named c (s.0) (s.1)) (miss_second (s.0) rest (other.0) (other.1))
]

-- the two tables that there are: none, and that of the Tcl strings
pub record Reads (extras : List ExtraEscape) : Type 0 where
  pub read_back :
      (c : ℕ) (rest : Bytes)
      → c < 256
      → unescape_char extras (escape_char extras c ++ rest) ≡ some (c, rest)
  pub opens : (c : ℕ) → Opens (escape_char extras c)

pub no_extras-Reads : Reads []
unfolding unescape_char escape_char extra_escape extra_unescape
no_extras-Reads = record { read_back = cstr_unescape_char-escape; opens = cstr_escape_char-Opens }

no_extra_escape : (c : ℕ) → c ≢ 123 → c ≢ 125 → extra_escape tclstr_escapes c ≡ none
unfolding extra_escape
no_extra_escape c h k = ground (arith, h, k)

by_table : (c : ℕ) → c ≢ 123 → c ≢ 125 → escape_char tclstr_escapes c ≡ cstr_escape_char c
unfolding escape_char
by_table c h k = rw (no_extra_escape c h k, escape_char) refl

missed :
    (q : Bytes)
    → extra_unescape tclstr_escapes q ≡ none
    → unescape_char tclstr_escapes q ≡ cstr_unescape_char q
unfolding unescape_char
missed q h = rw (h, unescape_char) refl

open_brace :
    (rest : Bytes)
    → unescape_char tclstr_escapes (escape_char tclstr_escapes 123 ++ rest) ≡ some (123, rest)
unfolding unescape_char escape_char extra_escape extra_unescape behind
open_brace rest = refl

close_brace :
    (rest : Bytes)
    → unescape_char tclstr_escapes (escape_char tclstr_escapes 125 ++ rest) ≡ some (125, rest)
unfolding unescape_char escape_char extra_escape extra_unescape behind
close_brace rest = refl

brace_Opens : (Opens (escape_char tclstr_escapes 123)) × (Opens (escape_char tclstr_escapes 125))
unfolding escape_char extra_escape
brace_Opens =
    ((92, 60 ∷ [], refl, λ e. omega (arith, e)), (92, 62 ∷ [], refl, λ e. omega (arith, e)))

pub tclstr-Reads : Reads tclstr_escapes
tclstr-Reads = record {
  read_back = λ c rest h. elim (Bool-cases (c == 123)) [
    | inl e ↦ let brace : c ≡ 123 = ground (arith, e) in rw brace (open_brace rest)
    | inr n ↦ elim (Bool-cases (c == 125)) [
      | inl e ↦ let brace : c ≡ 125 = ground (arith, e) in rw brace (close_brace rest)
      | inr m ↦
          rw (by_table c (ground (arith, n)) (ground (arith, m)))
            (missed (cstr_escape_char c ++ rest) (miss c rest) ∙ cstr_unescape_char-escape c rest h)
    ]
  ];
  opens = λ c. elim (Bool-cases (c == 123)) [
    | inl e ↦ let brace : c ≡ 123 = ground (arith, e) in rw brace (brace_Opens.0)
    | inr n ↦ elim (Bool-cases (c == 125)) [
      | inl e ↦ let brace : c ≡ 125 = ground (arith, e) in rw brace (brace_Opens.1)
      | inr m ↦ rw (by_table c (ground (arith, n)) (ground (arith, m))) (cstr_escape_char-Opens c)
    ]
  ];
}
