-- ===== src/Base64/Length.antt =====
-- How long the encoded text is, and when the encoder reports success.
use wvstreams.Prelude.{◌+◌, ◌*◌, ◌/◌, ◌%◌, true, [], ◌∷◌, Bytes, length, ◌≡◌, refl, arith, ◌==◌}
use wvstreams.Encoder.{fresh, flush_str}
use wvstreams.Encoder.Loop.{loop}
use wvstreams.Base64.{encode_char, encode, finish, new_encoder, encoder, padding, is_at_bit0}
use wvstreams.Base64.Groups.{text, encode_group, encode_one, encode_two}
use wvstreams.Base64.RoundTrip.{encoded, text-encoded, encode_total}

length-text :
    (bytes : Bytes)
    → length (text (loop encode_char new_encoder bytes)) ≡ (length bytes + 2) / 3 * 4
length-text [] = unfold loop padding in refl
length-text (a ∷ []) = rw (encode_one a) (unfold padding in refl)
length-text (a ∷ b ∷ []) = rw (encode_two a b) (unfold padding in refl)
length-text (a ∷ b ∷ c ∷ cs) = rw (encode_group a b c cs) (omega (arith, length-text cs))

-- The text is four characters for every three bytes begun.
length-encoded : (bytes : Bytes) → length (encoded bytes) ≡ (length bytes + 2) / 3 * 4
length-encoded bytes = rw (text-encoded bytes) (length-text bytes)

whole_groups :
    (bytes : Bytes)
    → is_at_bit0 (loop encode_char new_encoder bytes).state.state ≡ (length bytes % 3 == 0)
whole_groups [] = unfold loop in refl
whole_groups (a ∷ []) = rw (encode_one a) refl
whole_groups (a ∷ b ∷ []) = rw (encode_two a b) refl
whole_groups (a ∷ b ∷ c ∷ cs) = rw (encode_group a b c cs) (rw (whole_groups cs) (ground arith))

-- A call that flushes and finishes writes the whole text, and yet reports success exactly when the
-- bytes fill whole groups, since `_encode` refuses to call its data flushed when padding is due.
flush_success :
    (bytes : Bytes)
    → (flush_str encoder (fresh new_encoder) bytes true).success ≡ (length bytes % 3 == 0)
unfolding flush_str encode finish
flush_success bytes = ground (arith, encode_total bytes new_encoder, whole_groups bytes)
