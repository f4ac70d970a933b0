-- ===== src/Base64/Errors.antt =====
-- What the decoder refuses.
use wvstreams.Prelude.{ℕ, ◌≡◌, ◌<◌, Bool, true, false, none, some, [], ◌∷◌, ◌++◌, Bytes, arith}
use wvstreams.Encoder.Loop.{bad, loop, loop_refuses}
use wvstreams.Base64.{lookup, pad, decode_bits, decode_symbol, decode_char, decode, Base64Decoder}

-- A letter after the padding is an error: the call fails at it, writes nothing for it, and leaves
-- what follows it in the buffer.
pub decode_after_pad :
    (s : Base64Decoder) (c d : ℕ) (rest : Bytes) (flush : Bool)
    → s.state ≡ pad
    → lookup c ≡ some d
    → d < 64
    → ((decode s (c ∷ rest) flush).success ≡ false)
      × ((decode s (c ∷ rest) flush).errored ≡ true)
      × ((decode s (c ∷ rest) flush).out ≡ [])
      × ((decode s (c ∷ rest) flush).rest ≡ rest)
unfolding decode loop decode_char decode_symbol decode_bits
decode_after_pad s c d rest flush p q h = ground arith

decode_char-bad :
    (s : Base64Decoder) (c : ℕ) → lookup c ≡ none → (t : Base64Decoder) × (decode_char s c ≡ bad t)
unfolding decode_char decode_symbol
decode_char-bad s c h = (s, rw h)

-- A text with a character outside the alphabet anywhere is never decoded with success.
pub decode_invalid :
    (s : Base64Decoder) (xs : Bytes) (c : ℕ) (ys : Bytes) (flush : Bool)
    → lookup c ≡ none
    → (decode s (xs ++ c ∷ ys) flush).success ≡ false
unfolding decode
decode_invalid s xs c ys flush h =
    rw (loop_refuses decode_char xs s c ys (λ t. decode_char-bad t c h))
