-- ===== src/Backslash.antt =====
-- utils/wvbackslash.cc: escaping as in C. The encoder writes to a buffer over one array, whose room it is
-- given; the decoder's output buffer grows as needed. The encoder takes its input in the chunks, none of them
-- empty, that its buffer has at hand at once, and reads a whole chunk before it looks at it.
pub mod RoundTrip
pub mod Room
use wvstreams.Prelude.{
  ℕ, ◌+◌, ◌-◌, ◌*◌, ◌/◌, ◌%◌, Bool, true, false, not, ◌&&◌, ◌||◌, Option, none, some, List, [], ◌∷◌,
  ◌++◌, ◌>>=◌, Bytes, codes, length, take, drop, ltb, leb, ◌==◌, if◌then◌else◌,
}
use wvstreams.Ctype.{isdigit, isprint, tohex}

-- "\a\b\f\n\r\t\v" and the letters for them
abbrev pub escapein : Bytes
escapein = 7 ∷ 8 ∷ 12 ∷ 10 ∷ 13 ∷ 9 ∷ 11 ∷ []

abbrev pub escapeout : Bytes
escapeout = b'a' ∷ b'b' ∷ b'f' ∷ b'n' ∷ b'r' ∷ b't' ∷ b'v' ∷ []

-- to[strchr(from, c) - from]
unfoldable pub paired : Bytes → Bytes → ℕ → Option ℕ
paired (x ∷ from) (y ∷ to) c = if x == c then some y else paired from to c
paired _ _ c = none

abbrev pub strchr : Bytes → ℕ → Bool
strchr [] c = false
strchr (x ∷ s) c = x == c || strchr s c

unfoldable pub fromhex : ℕ → Option ℕ
fromhex digit =
    if isdigit digit
    then some (digit - b'0')
    else if leb b'A' digit && leb digit b'F'
    then some (digit - b'A' + 10)
    else if leb b'a' digit && leb digit b'f'
    then some (digit - b'a' + 10)
    else none

unfoldable pub fromoctal : ℕ → Option ℕ
fromoctal digit = if leb b'0' digit && leb digit b'7' then some (digit - b'0') else none

-- what is written for a character: itself, or an escape sequence
abbrev hex_sequence : ℕ → Bytes
hex_sequence c = 92 ∷ b'x' ∷ tohex (c / 16) 87 ∷ tohex (c % 16) 87 ∷ []

abbrev special_sequence : ℕ → Option ℕ → Bytes
special_sequence c (some l) = 92 ∷ l ∷ []
special_sequence c none = if isprint c then c ∷ [] else hex_sequence c

unfoldable pub sequence : Bytes → ℕ → Bytes
sequence nasties c =
    if c == 0
    then hex_sequence c
    else if strchr nasties c
    then 92 ∷ c ∷ []
    else special_sequence c (paired escapein escapeout c)

-- What the loop over a chunk writes, the room that it leaves, and the characters at which it gives up.
pub record Written : Type 0 where
  pub out : Bytes
  pub avail : ℕ
  pub lost : Bytes

unfoldable pub encode_chunk : Bytes → Bytes → ℕ → Written
encode_chunk nasties [] avail = record { out = []; avail = avail; lost = [] }
encode_chunk nasties (c ∷ cs) avail =
    let s = sequence nasties c in
    let rest = encode_chunk nasties cs (avail - length s) in
    if ltb avail (length s)
    then record { out = []; avail = avail; lost = c ∷ cs }
    else record rest { out = s ++ rest.out }

-- the output buffer: what its reader has taken, and what it has still to take
pub record OutBuf : Type 0 where
  pub taken : Bytes
  pub queue : Bytes

-- outbuf.unget; `none` is the assertion of the store that so much was taken
unfoldable pub unget : ℕ → OutBuf → Option OutBuf
unget count b =
    let keep = length b.taken - count in
    if leb count (length b.taken)
    then some (record { taken = take keep b.taken; queue = drop keep b.taken ++ b.queue })
    else none

pub record Encoded : Type 0 where
  pub outbuf : OutBuf
  pub inbuf : List Bytes
  pub ok : Bool

-- Where the room ends it is the output buffer that gets the characters in its `unget`, by their number.
unfoldable pub encode : Bytes → List Bytes → ℕ → Bool → OutBuf → Option Encoded
encode nasties [] avail flush b = some (record { outbuf = b; inbuf = []; ok = true })
encode nasties (datain ∷ inbuf) avail flush b =
    let w = encode_chunk nasties datain avail in
    let written = record b { queue = b.queue ++ w.out } in
    let rest = encode nasties inbuf w.avail flush written in
    elim w.lost [
      | [] ↦ rest
      | c ∷ lost ↦ do
        b' ← unget (length (c ∷ lost)) written
        some (record { outbuf = b'; inbuf = inbuf; ok = not flush })
    ]

pub data State : Type 0 where
  initial escape hex1 hex2 octal1 octal2 octal3 : State

pub record WvBackslashDecoder : Type 0 where
  pub state : State
  pub value : Option ℕ
  pub tmpbuf : Bytes
  pub out : Bytes

-- the constructor, with _reset
abbrev pub new_decoder : WvBackslashDecoder
new_decoder = record { state = initial; value = none; tmpbuf = []; out = [] }

-- tmpbuf.putch(value), of the low byte
abbrev pub pending : Option ℕ → Bytes
pending none = []
pending (some v) = v % 256 ∷ []

abbrev pub is_initial : State → Bool
is_initial initial = true
is_initial _ = false

unfoldable pub flushtmpbuf : WvBackslashDecoder → WvBackslashDecoder
flushtmpbuf d =
    if is_initial d.state
    then record d { out = d.out ++ (d.tmpbuf ++ pending d.value); tmpbuf = []; value = none }
    else d

abbrev pub plain : ℕ → WvBackslashDecoder → WvBackslashDecoder
plain c d = record d { state = (if c == 92 then escape else initial); tmpbuf = d.tmpbuf ++ c ∷ [] }

-- tmpbuf.unalloc(n)
abbrev pub unalloc : ℕ → Bytes → Bytes
unalloc n [] = []
unalloc n (c ∷ cs) = if ltb (length cs) n then [] else c ∷ unalloc n cs

abbrev or_itself : ℕ → Option ℕ → ℕ
or_itself c none = c
or_itself c (some e) = e

unfoldable pub escaped : ℕ → WvBackslashDecoder → WvBackslashDecoder
escaped c d =
    if leb b'0' c && leb c b'3'
    then record d { tmpbuf = unalloc 1 d.tmpbuf; value = some (c - b'0'); state = octal1 }
    else if c == b'x'
    then record d { tmpbuf = d.tmpbuf ++ c ∷ []; state = hex1 }
    else if c == 10
    then record d { tmpbuf = unalloc 1 d.tmpbuf ++ 10 ∷ []; state = initial }
    else record d {
      tmpbuf = unalloc 1 d.tmpbuf ++ or_itself c (paired escapeout escapein c) ∷ [];
      state = initial;
    }

-- a character that is no digit ends the sequence, and is then taken like any other
abbrev pub again : ℕ → WvBackslashDecoder → WvBackslashDecoder
again c d = plain c (flushtmpbuf (record d { state = initial }))

abbrev pub shifted : ℕ → ℕ → Option ℕ → Option ℕ
shifted base digit none = none
shifted base digit (some v) = some (v * base + digit)

abbrev pub hex_digit : ℕ → Option ℕ → State → WvBackslashDecoder → WvBackslashDecoder
hex_digit c none state d = again c d
hex_digit c (some digit) hex1 d = record d {
  tmpbuf = unalloc 2 d.tmpbuf;
  value = some digit;
  state = hex2;
}
hex_digit c (some digit) _ d = record d { value = shifted 16 digit d.value; state = initial }

abbrev pub next_octal : State → State
next_octal octal1 = octal2
next_octal octal2 = octal3
next_octal _ = initial

abbrev pub octal_digit : ℕ → Option ℕ → State → WvBackslashDecoder → WvBackslashDecoder
octal_digit c none state d = again c d
octal_digit c (some digit) state d = record d {
  value = shifted 8 digit d.value;
  state = next_octal state;
}

abbrev pub take_in : State → ℕ → WvBackslashDecoder → WvBackslashDecoder
take_in initial c d = plain c d
take_in escape c d = escaped c d
take_in hex1 c d = hex_digit c (fromhex c) hex1 d
take_in hex2 c d = hex_digit c (fromhex c) hex2 d
take_in octal1 c d = octal_digit c (fromoctal c) octal1 d
take_in octal2 c d = octal_digit c (fromoctal c) octal2 d
take_in octal3 c d = octal_digit c (fromoctal c) octal3 d

unfoldable pub decode_char : ℕ → WvBackslashDecoder → WvBackslashDecoder
decode_char c d = flushtmpbuf (take_in d.state c d)

unfoldable pub decode_loop : Bytes → WvBackslashDecoder → WvBackslashDecoder
decode_loop [] d = d
decode_loop (c ∷ cs) d = decode_loop cs (decode_char c d)

-- _encode of the decoder
unfoldable pub decode : Bytes → Bool → WvBackslashDecoder → WvBackslashDecoder
decode text flush d =
    let done = decode_loop text (flushtmpbuf d) in
    if flush then flushtmpbuf (record done { state = initial }) else done
