-- ===== src/TclString.antt =====
-- utils/wvtclstring.cc: quoting in the style of Tcl lists. A word is written as it stands, in braces,
-- or with backslashes; `getword` finds the next word of a list and takes the quoting off.
-- Each C function runs twice, first with no `dst` for the size; the model has its text, and
-- `escape_size` for the first run of `wvtcl_escape`. A `none` for a text is the null string; a
-- `none` of `unescape` is a run past the end of the text.
pub mod Escape
pub mod Size
pub mod Words
pub mod Lists
pub mod Quotes
use wvstreams.Prelude.{
  ℕ, zero, suc, ◌+◌, Bool, true, false, not, ◌&&◌, ◌||◌, Option, none, some, List, [], ◌∷◌, ◌++◌,
  Bytes, length, ◌==◌, if◌then◌else◌,
}
use wvstreams.Prelude.Int.{ℤ, pos, suc_ℤ, pred_ℤ, is_neg, is_zero}
use wvstreams.StringMask.{WvStringMask, contains}

-- the characters of WVTCL_ALWAYS_NASTY_CASE
unfoldable pub always_nasty : ℕ → Bool
always_nasty c = c == b'{' || c == b'}' || c == b'\\' || c == b'"'

unfoldable pub is_nasty : WvStringMask → ℕ → Bool
is_nasty nasties c = always_nasty c || contains nasties c

-- the locals of the loop that chooses the method
pub record Scan : Type 0 where
  pub backslashify : Bool
  pub inescape : Bool
  pub unprintables : ℕ
  pub bracecount : ℤ

abbrev pub start_scan : Scan
start_scan = record { backslashify = false; inescape = false; unprintables = 0; bracecount = pos 0 }

abbrev pub count_brace : Bool → ℕ → ℤ → ℤ
count_brace inescape c n =
    if not inescape && c == b'{' then suc_ℤ n else if not inescape && c == b'}' then pred_ℤ n else n

unfoldable pub scan_char : WvStringMask → Scan → ℕ → Scan
scan_char nasties s c =
    let braces = count_brace s.inescape c s.bracecount in
    record {
      backslashify = s.backslashify || is_neg braces;
      inescape = c == b'\\' && not s.inescape;
      unprintables = if is_nasty nasties c then s.unprintables + 1 else s.unprintables;
      bracecount = braces;
    }

unfoldable pub scan : WvStringMask → Scan → Bytes → Scan
scan nasties s [] = s
scan nasties s (c ∷ cs) = scan nasties (scan_char nasties s c) cs

-- the flag after the loop
abbrev pub needs_backslashes : Scan → Bool
needs_backslashes s = s.backslashify || (not (is_zero s.bracecount) || s.inescape)

unfoldable pub backslashed : WvStringMask → Bytes → Bytes
backslashed nasties [] = []
backslashed nasties (c ∷ cs) =
    (if is_nasty nasties c then b'\\' ∷ c ∷ [] else c ∷ []) ++ backslashed nasties cs

pub data Method : Type 0 where
  verbatim embraced backslashes : Method

abbrev choose : Scan → Method
choose s =
    if needs_backslashes s then backslashes else if s.unprintables == 0 then verbatim else embraced

unfoldable pub method : WvStringMask → Bytes → Method
method nasties s = choose (scan nasties start_scan s)

abbrev write : Method → WvStringMask → Bytes → Bytes
write verbatim nasties s = s
write embraced nasties s = b'{' ∷ (s ++ b'}' ∷ [])
write backslashes nasties s = backslashed nasties s

-- wvtcl_escape(dst, s, ...) of a text that is not null
unfoldable pub escape : WvStringMask → Bytes → Bytes
escape nasties [] = b'{' ∷ b'}' ∷ []
escape nasties (c ∷ cs) = write (method nasties (c ∷ cs)) nasties (c ∷ cs)

-- a null text is written as nothing
abbrev pub escape_or_null : WvStringMask → Option Bytes → Bytes
escape_or_null nasties none = []
escape_or_null nasties (some s) = escape nasties s

abbrev size_by : Method → Scan → Bytes → ℕ
size_by verbatim sc s = length s
size_by embraced sc s = length s + 2
size_by backslashes sc s = length s + sc.unprintables

-- wvtcl_escape(NULL, s, ...)
unfoldable pub escape_size : WvStringMask → Bytes → ℕ
escape_size nasties [] = 2
escape_size nasties (c ∷ cs) =
    size_by (method nasties (c ∷ cs)) (scan nasties start_scan (c ∷ cs)) (c ∷ cs)

abbrev pub head_is : ℕ → Bytes → Bool
head_is q [] = false
head_is q (c ∷ _) = c == q

abbrev pub last_is : ℕ → Bytes → Bool
last_is q [] = false
last_is q (c ∷ []) = c == q
last_is q (c ∷ d ∷ cs) = last_is q (d ∷ cs)

abbrev pub but_last : Bytes → Bytes
but_last [] = []
but_last (c ∷ []) = []
but_last (c ∷ d ∷ cs) = c ∷ but_last (d ∷ cs)

-- what stands between the first and the last character; the lone character has `start` behind
-- `end`, and the loop from one to the other never meets its test
abbrev pub inside : Bytes → Option Bytes
inside [] = none
inside (c ∷ []) = none
inside (c ∷ d ∷ cs) = some (but_last (d ∷ cs))

unfoldable pub unbackslash : Bool → Bytes → Bytes
unbackslash inescape [] = []
unbackslash inescape (c ∷ cs) =
    if c == b'\\' && not inescape then unbackslash true cs else c ∷ unbackslash false cs

abbrev unbackslash_inside : Option Bytes → Option Bytes
unbackslash_inside none = none
unbackslash_inside (some s) = some (unbackslash false s)

-- wvtcl_unescape(dst, s, ...) of a text that is not null
unfoldable pub unescape : Bytes → Option Bytes
unescape s =
    if head_is b'{' s && last_is b'}' s
    then inside s
    else if head_is b'"' s && last_is b'"' s
    then unbackslash_inside (inside s)
    else some (unbackslash false s)

-- the loop over a word
pub record WordState : Type 0 where
  pub inescape : Bool
  pub incontinuation : Bool
  pub bracecount : ℕ

pub record Word : Type 0 where
  pub state : WordState
  pub word : Bytes
  pub rest : Bytes

abbrev pub start_word : WordState
start_word = record { inescape = false; incontinuation = false; bracecount = 0 }

pub data WordStep : Type 0 where
  stop_before stop_after : WordStep
  go : WordState → WordStep

abbrev pub match_brace : ℕ → ℕ → ℕ
match_brace c zero = if c == b'{' then 1 else 0
match_brace c (suc n) = if c == b'{' then suc (suc n) else if c == b'}' then n else suc n

-- `inquote` never changes once the loop has begun
unfoldable pub word_char : Bool → WvStringMask → WordState → ℕ → WordStep
word_char inquote splitchars s c =
    if s.inescape
    then go (record s { inescape = false; incontinuation = c == 10 })
    else if c == b'\\'
    then go (record s { inescape = true; incontinuation = false })
    else if s.bracecount == 0 && (inquote && c == b'"')
    then stop_after
    else if s.bracecount == 0 && (not inquote && contains splitchars c)
    then stop_before
    else go (record {
      inescape = false;
      incontinuation = false;
      bracecount = if inquote then s.bracecount else match_brace c s.bracecount;
    })

abbrev pub longer : ℕ → Word → Word
longer c w = record w { word = c ∷ w.word }

abbrev pub stopped : WordState → WordState
stopped s = record s { incontinuation = false }

unfoldable pub word_loop : Bool → WvStringMask → WordState → Bytes → Word
word_loop inquote splitchars s [] = record { state = s; word = []; rest = [] }
word_loop inquote splitchars s (c ∷ cs) = elim (word_char inquote splitchars s c) [
  | stop_before ↦ record { state = stopped s; word = []; rest = c ∷ cs }
  | stop_after ↦ record { state = stopped s; word = c ∷ []; rest = cs }
  | go s' ↦ longer c (word_loop inquote splitchars s' cs)
]

unfoldable pub skip_separators : WvStringMask → Bytes → Bytes
skip_separators splitchars [] = []
skip_separators splitchars (c ∷ cs) =
    if contains splitchars c then skip_separators splitchars cs else c ∷ cs

abbrev pub is_nil : Bytes → Bool
is_nil [] = true
is_nil (_ ∷ _) = false

abbrev pub unfinished : Bool → Word → Bool
unfinished inquote w =
    not (w.state.bracecount == 0)
    || (is_nil w.word || (inquote || (w.state.inescape || w.state.incontinuation)))

abbrev pub finish_word : Bool → Word → Option Word
finish_word inquote w = if unfinished inquote w then none else some w

abbrev pub first_word : WvStringMask → Bytes → Option Word
first_word splitchars [] = none
first_word splitchars (c ∷ cs) =
    if c == b'"'
    then finish_word true (longer c (word_loop true splitchars start_word cs))
    else finish_word false (word_loop false splitchars start_word (c ∷ cs))

-- wvtcl_getword: the next word, as it is quoted, and what follows it; `none` is WVTCL_GETWORD_NONE
unfoldable pub getword : WvStringMask → Bytes → Option Word
getword splitchars s = first_word splitchars (skip_separators splitchars s)

abbrev pub unescape_if : Bool → Bytes → Option Bytes
unescape_if do_unescape word = if do_unescape then unescape word else some word

abbrev pub put_word : Option Bytes → Option (List Bytes) → Option (List Bytes)
put_word (some w) (some ws) = some (w ∷ ws)
put_word _ _ = none

-- wvtcl_decode, on fuel; `none` is a fault or the end of the fuel
unfoldable pub decode_from : ℕ → WvStringMask → Bool → Bytes → Option (List Bytes)
decode_from zero splitchars do_unescape s = none
decode_from (suc fuel) splitchars do_unescape s = elim (getword splitchars s) [
  | none ↦ some []
  | some w ↦
      put_word (unescape_if do_unescape w.word) (decode_from fuel splitchars do_unescape w.rest)
]

unfoldable pub decode : WvStringMask → Bool → Bytes → Option (List Bytes)
decode splitchars do_unescape s = decode_from (length s + 1) splitchars do_unescape s

-- wvtcl_encode
unfoldable pub encode : WvStringMask → WvStringMask → List (Option Bytes) → Bytes
encode nasties splitchars [] = []
encode nasties splitchars (e ∷ []) = escape_or_null nasties e
encode nasties splitchars (e ∷ e' ∷ l) =
    escape_or_null nasties e ++ splitchars.first ∷ encode nasties splitchars (e' ∷ l)
