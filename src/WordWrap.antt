-- ===== src/WordWrap.antt =====
-- utils/wvwordwrap.cc: the encoder that breaks lines at a width. The output buffer is the field `out`;
-- it grows as needed. `line` holds the first `curindex` characters of the array, which has `maxwidth`
-- of them, and `none` is a write behind it. Widths are small enough for an `int`.
pub mod Shape
pub mod Column
pub mod Width
use wvstreams.Prelude.{
  ◌>>=◌, ℕ, ◌+◌, ◌-◌, ◌*◌, ◌/◌, Bool, true, false, Option, none, some, List, [], ◌∷◌, ◌++◌, Bytes,
  length, drop, ltb, leb, ◌==◌, if◌then◌else◌,
}

pub record WvWordWrapEncoder : Type 0 where
  pub maxwidth : ℕ
  pub line : Bytes
  pub width : ℕ
  pub wordindex : ℕ
  pub inword : Bool
  pub out : Bytes

-- the constructor, with _reset
abbrev pub new_encoder : ℕ → WvWordWrapEncoder
new_encoder maxwidth = record {
  maxwidth = maxwidth;
  line = [];
  width = 0;
  wordindex = 0;
  inword = false;
  out = [];
}

abbrev pub curindex : WvWordWrapEncoder → ℕ
curindex w = length w.line

-- line[curindex++] = ch
unfoldable pub store : ℕ → WvWordWrapEncoder → Option WvWordWrapEncoder
store ch w =
    if ltb (curindex w) w.maxwidth then some (record w { line = w.line ++ ch ∷ [] }) else none

abbrev pub putch : ℕ → WvWordWrapEncoder → WvWordWrapEncoder
putch ch w = record w { out = w.out ++ ch ∷ [] }

unfoldable pub flushline : WvWordWrapEncoder → WvWordWrapEncoder
flushline w = record w { out = w.out ++ w.line; line = []; wordindex = 0; inword = false }

-- case '\n'
unfoldable pub newline : WvWordWrapEncoder → WvWordWrapEncoder
newline w =
    let kept = if w.inword then w else record w { line = [] } in
    putch 10 (record (flushline kept) { width = 0 })

-- case ' ' and case '\t', which differ in the width that they lead to
unfoldable pub blank : ℕ → (ℕ → ℕ) → WvWordWrapEncoder → Option WvWordWrapEncoder
blank ch advance w =
    let flushed = if w.inword then flushline w else w in
    let wider = record flushed { width = advance flushed.width } in
    if leb wider.width wider.maxwidth then store ch wider else some wider

abbrev pub past_space : ℕ → ℕ
past_space width = width + 1

-- (width + 8) & ~7
abbrev pub past_tab : ℕ → ℕ
past_tab width = (width + 8) / 8 * 8

unfoldable pub break_line : WvWordWrapEncoder → WvWordWrapEncoder
break_line w =
    if w.inword
    then (if w.wordindex == 0 then record (flushline w) { width = 0 } else record w {
      line = drop w.wordindex w.line;
      wordindex = 0;
      width = curindex w - w.wordindex;
    })
    else record w { line = []; wordindex = 0; width = 0 }

abbrev pub begin_word : WvWordWrapEncoder → WvWordWrapEncoder
begin_word w = if w.inword then w else record w { inword = true; wordindex = curindex w }

-- the line break before a character that does not fit
unfoldable pub break_full : WvWordWrapEncoder → WvWordWrapEncoder
break_full w = if leb w.maxwidth w.width then putch 10 (break_line w) else w

unfoldable pub put_letter : ℕ → WvWordWrapEncoder → Option WvWordWrapEncoder
put_letter ch w = let begun = begin_word w in store ch (record begun { width = begun.width + 1 })

-- default
unfoldable pub letter : ℕ → WvWordWrapEncoder → Option WvWordWrapEncoder
letter ch w = put_letter ch (break_full w)

unfoldable pub encode_char : ℕ → WvWordWrapEncoder → Option WvWordWrapEncoder
encode_char ch w =
    if ch == 10
    then some (newline w)
    else if ch == 32
    then blank ch past_space w
    else if ch == 9
    then blank ch past_tab w
    else letter ch w

unfoldable pub encode_loop : Bytes → WvWordWrapEncoder → Option WvWordWrapEncoder
encode_loop [] w = some w
encode_loop (ch ∷ cs) w = do w' ← encode_char ch w; encode_loop cs w'

-- _encode
unfoldable pub encode : Bytes → Bool → WvWordWrapEncoder → Option WvWordWrapEncoder
encode text flush w = do done ← encode_loop text w; some (if flush then flushline done else done)
