-- ===== src/Base64/RoundTrip.antt =====
-- The decoder reads back what the encoder wrote.
use wvstreams.Prelude.{ℕ, true, false, [], ◌∷◌, Bytes, IsByte, All, ◌≡◌, refl, arith}
use wvstreams.Encoder.{fresh, flush_str}
use wvstreams.Encoder.Loop.{next, loop}
use wvstreams.Base64.{
  Base64Encoder, at_bit0, at_bit2, at_bit4, encode_bits, encode_char, encode, finish, padding,
  new_encoder, encoder, decode, new_decoder, EncoderState,
}
use wvstreams.Base64.Groups.{
  text, Decodes, encode_group, loop_group, encode_one, encode_two, tail_one, tail_two,
}

Decodes-text :
    (bytes : Bytes) → All IsByte bytes → Decodes (text (loop encode_char new_encoder bytes)) bytes
Decodes-text [] h = unfold loop padding in (refl, refl, refl, refl)
Decodes-text (a ∷ []) h = rw (encode_one a) (unfold padding in tail_one a h.0)
Decodes-text (a ∷ b ∷ []) h = rw (encode_two a b) (unfold padding in tail_two a b h.0 h.1.0)
Decodes-text (a ∷ b ∷ c ∷ cs) h =
    let (o, ok, r, f) = Decodes-text cs h.1.1.1 in
    rw (encode_group a b c cs, loop_group a b c _ h.0 h.1.0 h.1.1.0) (rw o, ok, r, f)

abbrev pub encoded : Bytes → Bytes
encoded bytes = (flush_str encoder (fresh new_encoder) bytes true).out

encode_bits-next :
    (s : EncoderState) (bits : ℕ)
    → (t : Base64Encoder) × (out : Bytes) × (encode_bits s bits ≡ next t out false)
unfolding encode_bits
encode_bits-next at_bit0 bits = (_, _, refl)
encode_bits-next at_bit2 bits = (_, _, refl)
encode_bits-next at_bit4 bits = (_, _, refl)

encode_char-next :
    (s : Base64Encoder) (c : ℕ)
    → (t : Base64Encoder) × (out : Bytes) × (encode_char s c ≡ next t out false)
encode_char-next s c = unfold encode_char in encode_bits-next s.state _

-- The encoder never fails, takes all of its input, and is never finished by its input.
pub encode_total :
    (bytes : Bytes) (s : Base64Encoder)
    → ((loop encode_char s bytes).errored ≡ false)
      × ((loop encode_char s bytes).ended ≡ false)
      × ((loop encode_char s bytes).success ≡ true)
unfolding loop
encode_total [] s = (refl, refl, refl)
encode_total (c ∷ cs) s = let (t, out, e) = encode_char-next s c in rw (e, loop) (encode_total cs t)

pub text-encoded : (bytes : Bytes) → encoded bytes ≡ text (loop encode_char new_encoder bytes)
unfolding flush_str encode finish
text-encoded bytes = ground (arith, encode_total bytes new_encoder)

-- For bytes of any number, decoding what the encoder wrote, padding included, gives them back, reads
-- all of the text, and succeeds with the flush at its end.
pub decode-encode_base64 :
    (bytes : Bytes)
    → All IsByte bytes
    → ((decode new_decoder (encoded bytes) true).out ≡ bytes)
      × ((decode new_decoder (encoded bytes) true).success ≡ true)
      × ((decode new_decoder (encoded bytes) true).rest ≡ [])
unfolding decode
decode-encode_base64 bytes h =
    let (o, ok, r, f) = Decodes-text bytes h in rw (text-encoded bytes) (o, rw (ok, f), r)
