-- ===== src/Tests/Encoders.antt =====
-- utils/wvencoder.cc, utils/wvhex.cc and utils/wvbase64.cc at concrete inputs.
use wvstreams.Prelude.{true, false, not, All, ◌&&◌, [], ◌∷◌, ◌++◌, Bytes, codes, ◌≡◌, refl, arith}
use wvstreams.Ctype.{isdigit, isupper, islower, isxdigit, isspace, tolower, tohex}
use wvstreams.Encoder.{WvEncoder, finish, encode, encode_only, flush_str}
use wvstreams.Encoder.Loop.{loop}
use wvstreams.Encoder.Contract.{finish_once}
use wvstreams.Hex
use wvstreams.Hex.{HexDecoder}
use wvstreams.Hex.RoundTrip.{decode-encode_hex}
use wvstreams.Hex.Stream.{digit_value, digits, pairs, is_odd, IsHex, decode_lem}
use wvstreams.Base64
use wvstreams.Base64.{Base64Decoder, Base64Encoder}
use wvstreams.Base64.RoundTrip.{encoded, decode-encode_base64}
use wvstreams.Base64.Errors.{decode_invalid}

hex_program : Unit {0}
unfolding isdigit isupper islower isxdigit isspace tohex loop Hex.new_encoder Hex.encode_char
    Hex.encode Hex.fromhex Hex.decode_char Hex.decode
hex_program = tt

base64_program : Unit {0}
unfolding loop flush_str encode encode_only finish Base64.alphabet Base64.lookup Base64.encode_bits
    Base64.encode_char Base64.encode Base64.padding Base64.finish Base64.decode_bits
    Base64.decode_symbol Base64.decode_char Base64.decode
base64_program = tt

hex_digits : (Hex.encode (Hex.new_encoder false) (10 ∷ 255 ∷ []) true).out ≡ codes "0aff"
unfolding hex_program
hex_digits = refl

hex_odd : (Hex.decode Hex.new_decoder (codes "0a f") true).success ≡ false
unfolding hex_program
hex_odd = refl

base64_padded : encoded (codes "Man!") ≡ codes "TWFuIQ=="
unfolding base64_program
base64_padded = refl

base64_invalid : (Base64.decode Base64.new_decoder (codes "TW*u") false).rest ≡ codes "u"
unfolding base64_program
base64_invalid = refl

abbrev sample : Bytes
sample = 0 ∷ 171 ∷ 255 ∷ 16 ∷ []

decode-encode_hex_example :
    ((Hex.decode Hex.new_decoder (Hex.encode (Hex.new_encoder true) sample true).out true).out
      ≡ sample)
    × ((Hex.decode Hex.new_decoder (Hex.encode (Hex.new_encoder true) sample true).out true).success
        ≡ true)
decode-encode_hex_example = decode-encode_hex true sample (omega arith)

abbrev hex_text : Bytes
hex_text = codes "4d 2F\n7"

hex_text-IsHex : All IsHex hex_text
unfolding hex_program
hex_text-IsHex = (refl, (refl, (refl, (refl, (refl, (refl, (refl, tt)))))))

g_no_digit : (isxdigit b'g' ≡ false) × (isspace b'g' ≡ false)
unfolding hex_program
g_no_digit = (refl, refl)

decode_lem_example :
    ((Hex.decode Hex.new_decoder hex_text true).out ≡ pairs (digits hex_text))
    × ((Hex.decode Hex.new_decoder hex_text true).success ≡ not (true && is_odd (digits hex_text)))
    × ((Hex.decode Hex.new_decoder hex_text true).rest ≡ [])
    × ((Hex.decode Hex.new_decoder (hex_text ++ b'g' ∷ codes "0") true).out
        ≡ pairs (digits hex_text))
    × ((Hex.decode Hex.new_decoder (hex_text ++ b'g' ∷ codes "0") true).success ≡ false)
    × ((Hex.decode Hex.new_decoder (hex_text ++ b'g' ∷ codes "0") true).rest ≡ codes "0")
decode_lem_example =
    decode_lem hex_text b'g' (codes "0") true hex_text-IsHex g_no_digit.0 g_no_digit.1

table_bytes : (pairs (digits hex_text) ≡ 77 ∷ 47 ∷ []) × (is_odd (digits hex_text) ≡ true)
unfolding digit_value hex_program tolower
table_bytes = (refl, refl)

decode-encode_base64_example :
    ((Base64.decode Base64.new_decoder (encoded sample) true).out ≡ sample)
    × ((Base64.decode Base64.new_decoder (encoded sample) true).success ≡ true)
    × ((Base64.decode Base64.new_decoder (encoded sample) true).rest ≡ [])
decode-encode_base64_example = decode-encode_base64 sample (omega arith)

decode_invalid_example :
    (Base64.decode Base64.new_decoder (codes "TW" ++ b'*' ∷ codes "u") true).success ≡ false
decode_invalid_example =
    decode_invalid Base64.new_decoder (codes "TW") b'*' (codes "u") true
      (unfold base64_program in refl)

abbrev padded : Base64Decoder
padded = record { state = Base64.pad; bits = 0 }

abbrev broken : WvEncoder Base64Decoder
broken = record { okay = false; finished = false; own = Base64.new_decoder }

finish_once_example :
    ((finish Base64.decoder broken).enc.finished ≡ true)
    × (finish Base64.decoder (finish Base64.decoder broken).enc
        ≡ record { enc = (finish Base64.decoder broken).enc; rest = []; out = []; success = false })
finish_once_example = finish_once Base64.decoder broken
