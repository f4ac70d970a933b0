-- ===== src/Base64.antt =====
-- utils/wvbase64.cc: three bytes become four characters of a 64-letter alphabet, with `=` for
-- padding. `bits` is an unsigned int; its shifts are written modulo 2^32.
pub mod Groups
pub mod RoundTrip
pub mod Length
pub mod Errors
use wvstreams.Prelude.{
  ℕ, ◌+◌, ◌-◌, ◌*◌, ◌/◌, ◌%◌, ◌^◌, Bool, true, false, not, ◌&&◌, ◌||◌, Option, none, some, [], ◌∷◌,
  Bytes, leb, ◌==◌, if◌then◌else◌, codes, get_or,
}
use wvstreams.Encoder.{Outcome, Methods}
use wvstreams.Encoder.Loop.{Step, next, bad, done, require, loop}

-- alphabet[i]; the array ends in a line feed and a NUL
unfoldable pub alphabet : ℕ → ℕ
alphabet i =
    get_or (codes "ABCDEFGHIJKLMNOPQRSTUVWXYZabcdefghijklmnopqrstuvwxyz0123456789+/=\n") i 0

-- `none` is -1, for no letter of the alphabet
unfoldable pub lookup : ℕ → Option ℕ
lookup ch =
    if leb b'A' ch && leb ch b'Z'
    then some (ch - b'A')
    else if leb b'a' ch && leb ch b'z'
    then some (ch - b'a' + 26)
    else if leb b'0' ch && leb ch b'9'
    then some (ch - b'0' + 52)
    else if ch == b'+'
    then some 62
    else if ch == b'/'
    then some 63
    else if ch == b'='
    then some 64
    else if ch == 10 || ch == 32 || ch == 13 || ch == 9 || ch == 12 || ch == 11
    then some 65
    else none

-- how many bits of the current group have been written
pub data EncoderState : Type 0 where
  at_bit0 at_bit2 at_bit4 : EncoderState

pub record Base64Encoder : Type 0 where
  pub state : EncoderState
  pub bits : ℕ

abbrev pub new_encoder : Base64Encoder
new_encoder = record { state = at_bit0; bits = 0 }

-- the `switch` on the state, with `bits` already shifted
unfoldable pub encode_bits : EncoderState → ℕ → Step Base64Encoder
encode_bits at_bit0 bits =
    next (record { state = at_bit2; bits = bits % 4 }) (alphabet (bits / 4) ∷ []) false
encode_bits at_bit2 bits =
    next (record { state = at_bit4; bits = bits % 16 }) (alphabet (bits / 16) ∷ []) false
encode_bits at_bit4 bits =
    next (record { state = at_bit0; bits = 0 }) (alphabet (bits / 64) ∷ alphabet (bits % 64) ∷ [])
      false

unfoldable pub encode_char : Base64Encoder → ℕ → Step Base64Encoder
encode_char s byte = encode_bits s.state (s.bits * 2 ^ 8 % 2 ^ 32 + byte)

abbrev pub is_at_bit0 : EncoderState → Bool
is_at_bit0 at_bit0 = true
is_at_bit0 _ = false

-- the data is not flushed while padding is due
unfoldable pub encode : Base64Encoder → Bytes → Bool → Outcome Base64Encoder
encode s input flush =
    let o = loop encode_char s input in require (not (flush && not (is_at_bit0 o.state.state))) o

unfoldable pub padding : EncoderState → ℕ → Bytes
padding at_bit2 bits = alphabet (bits * 16) ∷ b'=' ∷ b'=' ∷ []
padding at_bit4 bits = alphabet (bits * 4) ∷ b'=' ∷ []
padding at_bit0 bits = []

unfoldable pub finish : Base64Encoder → Outcome Base64Encoder
finish s = record (done s) { out = padding s.state s.bits }

pub data DecoderState : Type 0 where
  at_bit0 at_bit2 at_bit4 at_bit6 pad : DecoderState

pub record Base64Decoder : Type 0 where
  pub state : DecoderState
  pub bits : ℕ

abbrev pub new_decoder : Base64Decoder
new_decoder = record { state = at_bit0; bits = 0 }

-- the inner `switch`, with the symbol's six bits already shifted in; putch keeps a byte
unfoldable pub decode_bits : DecoderState → ℕ → Step Base64Decoder
decode_bits at_bit0 bits = next (record { state = at_bit2; bits = bits }) [] false
decode_bits at_bit2 bits =
    next (record { state = at_bit4; bits = bits % 16 }) (bits / 16 % 256 ∷ []) false
decode_bits at_bit4 bits =
    next (record { state = at_bit6; bits = bits % 4 }) (bits / 4 % 256 ∷ []) false
decode_bits at_bit6 bits = next (record { state = at_bit0; bits = 0 }) (bits % 256 ∷ []) false
decode_bits pad bits = bad (record { state = pad; bits = bits })

unfoldable pub decode_symbol : Base64Decoder → Option ℕ → Step Base64Decoder
decode_symbol s none = bad s
decode_symbol s (some symbol) =
    if symbol == 64
    then next (record s { state = pad }) [] true
    else if symbol == 65
    then next s [] false
    else decode_bits s.state (s.bits * 2 ^ 6 % 2 ^ 32 + symbol)

unfoldable pub decode_char : Base64Decoder → ℕ → Step Base64Decoder
decode_char s c = decode_symbol s (lookup c)

abbrev pub is_partial : DecoderState → Bool
is_partial at_bit2 = true
is_partial at_bit4 = true
is_partial at_bit6 = true
is_partial _ = false

unfoldable pub decode : Base64Decoder → Bytes → Bool → Outcome Base64Decoder
decode s input flush =
    let o = loop decode_char s input in require (not (flush && is_partial o.state.state)) o

abbrev pub encoder : Methods Base64Encoder
encoder = record { do_encode = encode; do_finish = finish; do_reset = λ s. (new_encoder, true) }

abbrev pub decoder : Methods Base64Decoder
decoder = record { do_encode = decode; do_finish = done; do_reset = λ s. (new_decoder, true) }
