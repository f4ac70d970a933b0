-- ===== src/Hex.antt =====
-- utils/wvhex.cc: the encoder writes two digits a byte, the decoder reads digits in pairs, skips
-- white space and gives up at any other character.
pub mod RoundTrip
pub mod Stream
use wvstreams.Prelude.{
  ℕ, ◌+◌, ◌-◌, ◌*◌, ◌/◌, ◌%◌, Bool, true, false, not, ◌&&◌, [], ◌∷◌, Bytes, if◌then◌else◌,
}
use wvstreams.Ctype.{isdigit, isupper, isxdigit, isspace, tohex}
use wvstreams.Encoder.{Outcome, Methods}
use wvstreams.Encoder.Loop.{Step, next, bad, done, require, loop}

-- the encoder's only state
pub record HexEncoder : Type 0 where
  pub alphabase : ℕ

unfoldable pub new_encoder : Bool → HexEncoder
new_encoder use_uppercase = record { alphabase = (if use_uppercase then b'A' else b'a') - 10 }

unfoldable pub encode_char : HexEncoder → ℕ → Step HexEncoder
encode_char s byte =
    next s (tohex (byte / 16) s.alphabase ∷ tohex (byte % 16) s.alphabase ∷ []) false

unfoldable pub encode : HexEncoder → Bytes → Bool → Outcome HexEncoder
encode s input flush = loop encode_char s input

pub record HexDecoder : Type 0 where
  pub issecond : Bool
  pub first : ℕ

abbrev pub new_decoder : HexDecoder
new_decoder = record { issecond = false; first = 0 }

-- called on hexadecimal digits only
unfoldable pub fromhex : ℕ → ℕ
fromhex digit =
    if isdigit digit
    then digit - b'0'
    else if isupper digit
    then digit - b'A' + 10
    else digit - b'a' + 10

unfoldable pub decode_char : HexDecoder → ℕ → Step HexDecoder
decode_char s ch =
    if isxdigit ch
    then (if not s.issecond
        then next (record { issecond = true; first = fromhex ch }) [] false
        else next (record s { issecond = false }) ((s.first * 16 + fromhex ch) % 256 ∷ []) false)
    else if isspace ch
    then next s [] false
    else bad s

-- a flush in the middle of a pair is not a success
unfoldable pub decode : HexDecoder → Bytes → Bool → Outcome HexDecoder
decode s input flush =
    let o = loop decode_char s input in require (not (flush && o.state.issecond)) o

abbrev pub encoder : Methods HexEncoder
encoder = record { do_encode = encode; do_finish = done; do_reset = λ s. (s, true) }

abbrev pub decoder : Methods HexDecoder
decoder = record { do_encode = decode; do_finish = done; do_reset = λ s. (new_decoder, true) }
