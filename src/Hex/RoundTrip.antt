-- ===== src/Hex/RoundTrip.antt =====
-- The decoder reads back what the encoder wrote, and how white space and odd digits are treated.
use wvstreams.Prelude.{
  ℕ, ◌+◌, ◌*◌, ◌/◌, ◌%◌, ◌<◌, Bool, true, false, [], ◌∷◌, Bytes, IsByte, All, ◌≡◌, refl, arith,
}
use wvstreams.Ctype.{tohex, isdigit, isupper, isxdigit}
use wvstreams.Encoder.Loop.{next, loop, emit}
use wvstreams.Hex.{
  new_encoder, encode_char, encode, HexDecoder, fromhex, decode_char, decode, new_decoder,
}

-- the two letter bases that the constructor can choose
abbrev pub hex_base : Bool → ℕ
hex_base upper = (new_encoder upper).alphabase

tohex-isxdigit : (upper : Bool) (d : ℕ) → d < 16 → isxdigit (tohex d (hex_base upper)) ≡ true
unfolding tohex isxdigit isdigit new_encoder
tohex-isxdigit upper d h = ground arith

fromhex-tohex : (upper : Bool) (d : ℕ) → d < 16 → fromhex (tohex d (hex_base upper)) ≡ d
unfolding tohex fromhex isdigit isupper new_encoder
fromhex-tohex upper d h = ground arith

decode_first :
    (s : HexDecoder) (c : ℕ)
    → s.issecond ≡ false
    → isxdigit c ≡ true
    → decode_char s c ≡ next (record { issecond = true; first = fromhex c }) [] false
unfolding decode_char
decode_first s c h p = ground arith

decode_second :
    (s : HexDecoder) (c : ℕ)
    → s.issecond ≡ true
    → isxdigit c ≡ true
    → decode_char s c
      ≡ next (record s { issecond = false }) ((s.first * 16 + fromhex c) % 256 ∷ []) false
unfolding decode_char
decode_second s c h p = ground arith

-- two digits read by a decoder that is between pairs
decode_pair :
    (s : HexDecoder) (a b : ℕ) (rest : Bytes)
    → s.issecond ≡ false
    → isxdigit a ≡ true
    → isxdigit b ≡ true
    → loop decode_char s (a ∷ b ∷ rest)
      ≡ emit
          ((fromhex a * 16 + fromhex b) % 256 ∷ [])
          false
          (loop decode_char (record { issecond = false; first = fromhex a }) rest)
unfolding loop
decode_pair s a b rest h p q =
    rw (decode_first s a h p, loop)
      (rw (decode_second (record { issecond = true; first = fromhex a }) b refl q, loop))

decode-encode_from :
    (upper : Bool) (s : HexDecoder) (bytes : Bytes)
    → s.issecond ≡ false
    → All IsByte bytes
    → ((loop decode_char s (loop encode_char (new_encoder upper) bytes).out).out ≡ bytes)
      × ((loop decode_char s (loop encode_char (new_encoder upper) bytes).out).success ≡ true)
      × ((loop decode_char s (loop encode_char (new_encoder upper) bytes).out).state.issecond
          ≡ false)
unfolding loop encode_char
decode-encode_from upper s [] h k = (refl, refl, h)
decode-encode_from upper s (c ∷ cs) h k =
    let hi : c / 16 < 16 = omega arith in
    let lo : c % 16 < 16 = omega arith in
    let (read, fine, even) =
      decode-encode_from upper (record { issecond = false; first = c / 16 }) cs refl k.1 in
    rw
      (
        decode_pair s _ _ _ h (tohex-isxdigit upper _ hi) (tohex-isxdigit upper _ lo),
        fromhex-tohex upper _ hi,
        fromhex-tohex upper _ lo,
      )
      (ground (arith, read, k.0), fine, even)

-- Whatever the bytes, in upper or lower case, decoding what the encoder wrote gives them back, and the flush at the
-- end succeeds.
pub decode-encode_hex :
    (upper : Bool) (bytes : Bytes)
    → All IsByte bytes
    → ((decode new_decoder (encode (new_encoder upper) bytes true).out true).out ≡ bytes)
      × ((decode new_decoder (encode (new_encoder upper) bytes true).out true).success ≡ true)
unfolding decode encode
decode-encode_hex upper bytes h =
    let (read, fine, even) = decode-encode_from upper new_decoder bytes refl h in
    (read, rw (fine, even))
