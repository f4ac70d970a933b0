-- ===== src/Base64/Groups.antt =====
-- Three bytes written and read back as four letters, and the shorter tails with their padding.
use wvstreams.Prelude.{
  ℕ, suc, ◌+◌, ◌*◌, ◌/◌, ◌%◌, ◌<◌, Bool, true, false, Option, some, [], ◌∷◌, ◌++◌, Bytes, IsByte,
  all_below, ◌≡◌, refl, arith, ◌==◌,
}
use wvstreams.Encoder.{Outcome}
use wvstreams.Encoder.Loop.{next, loop, emit, done}
use wvstreams.Base64.{
  alphabet, lookup, Base64Encoder, at_bit2, at_bit4, encode_bits, encode_char, padding, new_encoder,
  Base64Decoder, at_bit6, pad, decode_bits, decode_symbol, decode_char, new_decoder, is_partial,
}

abbrev is_symbol : Option ℕ → ℕ → Bool
is_symbol (some s) d = s == d
is_symbol _ d = false

all_below_sound : (n : ℕ) (p : ℕ → Bool) (x : ℕ) → all_below n p ≡ true → x < n → p x ≡ true
all_below_sound ℕ.zero p x h lt = absurd (omega arith)
all_below_sound (suc n) p x h lt = ground (arith, all_below_sound n p x)

alphabet_table : all_below 64 (λ d. is_symbol (lookup (alphabet d)) d) ≡ true
unfolding lookup alphabet
alphabet_table = refl

is_symbol-some : (o : Option ℕ) (d : ℕ) → is_symbol o d ≡ true → o ≡ some d
is_symbol-some o d h = ground arith

-- The alphabet has 64 different letters, none of them padding or white space.
pub lookup-alphabet : (d : ℕ) → d < 64 → lookup (alphabet d) ≡ some d
lookup-alphabet d h =
    is_symbol-some _ d
      (all_below_sound 64 (λ d. is_symbol (lookup (alphabet d)) d) d alphabet_table h)

decode_letter :
    (s : Base64Decoder) (d : ℕ)
    → d < 64
    → s.bits < 64
    → decode_char s (alphabet d) ≡ decode_bits s.state (s.bits * 64 + d)
unfolding decode_char decode_symbol
decode_letter s d h k = rw (lookup-alphabet d h) (ground arith)

-- one call of the decoder's loop body on a letter, in each state
loop_letter :
    (s t : Base64Decoder) (d : ℕ) (bytes rest : Bytes)
    → d < 64
    → s.bits < 64
    → decode_bits s.state (s.bits * 64 + d) ≡ next t bytes false
    → loop decode_char s (alphabet d ∷ rest) ≡ emit bytes false (loop decode_char t rest)
unfolding loop
loop_letter s t d bytes rest h k e = rw (decode_letter s d h k, loop) (rw (e, loop))

-- three bytes written as four letters
pub loop_group :
    (a b c : ℕ) (rest : Bytes)
    → IsByte a
    → IsByte b
    → IsByte c
    → loop decode_char new_decoder (
        alphabet (a / 4)
        ∷ alphabet ((a % 4 * 256 + b) / 16)
        ∷ alphabet ((b % 16 * 256 + c) / 64)
        ∷ alphabet ((b % 16 * 256 + c) % 64)
        ∷ rest)
      ≡ emit (a ∷ b ∷ c ∷ []) false (loop decode_char new_decoder rest)
unfolding decode_bits
loop_group a b c rest p q r =
    rw
      (loop_letter new_decoder (record { state = at_bit2; bits = a / 4 }) (a / 4) [] _ (omega arith)
        (omega arith) (ground arith))
      (rw
        (loop_letter (record { state = at_bit2; bits = a / 4 })
          (record { state = at_bit4; bits = b / 16 }) ((a % 4 * 256 + b) / 16) (a ∷ []) _
          (omega arith) (omega arith) (ground arith))
        (rw
          (loop_letter (record { state = at_bit4; bits = b / 16 })
            (record { state = at_bit6; bits = c / 64 }) ((b % 16 * 256 + c) / 64) (b ∷ []) _
            (omega arith) (omega arith) (ground arith))
          (rw
            (loop_letter (record { state = at_bit6; bits = c / 64 }) new_decoder
              ((b % 16 * 256 + c) % 64) (c ∷ []) rest (omega arith) (omega arith) (ground arith))
            refl)))

encode_at0 :
    (a : ℕ)
    → encode_char new_encoder a
      ≡ next (record { state = at_bit2; bits = a % 4 }) (alphabet (a / 4) ∷ []) false
unfolding encode_char encode_bits
encode_at0 a = ground arith

encode_at2 :
    (bits b : ℕ)
    → bits < 4
    → encode_char (record { state = at_bit2; bits = bits }) b
      ≡ next
          (record { state = at_bit4; bits = b % 16 })
          (alphabet ((bits * 256 + b) / 16) ∷ [])
          false
unfolding encode_char encode_bits
encode_at2 bits b h = ground arith

encode_at4 :
    (bits c : ℕ)
    → bits < 16
    → encode_char (record { state = at_bit4; bits = bits }) c
      ≡ next new_encoder
          (alphabet ((bits * 256 + c) / 64) ∷ alphabet ((bits * 256 + c) % 64) ∷ [])
          false
unfolding encode_char encode_bits
encode_at4 bits c h = ground arith

-- what the encoder has written when it is finished
abbrev pub text : Outcome Base64Encoder → Bytes
text o = o.out ++ padding o.state.state o.state.bits

pub encode_group :
    (a b c : ℕ) (cs : Bytes)
    → loop encode_char new_encoder (a ∷ b ∷ c ∷ cs)
      ≡ emit
          (alphabet (a / 4)
            ∷ alphabet ((a % 4 * 256 + b) / 16)
            ∷ alphabet ((b % 16 * 256 + c) / 64)
            ∷ alphabet ((b % 16 * 256 + c) % 64)
            ∷ [])
          false
          (loop encode_char new_encoder cs)
unfolding loop
encode_group a b c cs =
    rw (encode_at0 a, loop)
      (rw (encode_at2 (a % 4) b (omega arith), loop)
        (rw (encode_at4 (b % 16) c (omega arith), loop) refl))

loop_pad :
    (s : Base64Decoder) (rest : Bytes)
    → loop decode_char s (b'=' ∷ rest)
      ≡ emit [] true (loop decode_char (record s { state = pad }) rest)
unfolding loop decode_char decode_symbol lookup
loop_pad s rest = refl

-- what a successful decoding to `bytes` is
abbrev pub Decodes : Bytes → Bytes → Type 0
Decodes input bytes =
    ((loop decode_char new_decoder input).out ≡ bytes)
    × ((loop decode_char new_decoder input).success ≡ true)
    × ((loop decode_char new_decoder input).rest ≡ [])
    × (is_partial (loop decode_char new_decoder input).state.state ≡ false)

pub encode_one :
    (a : ℕ)
    → loop encode_char new_encoder (a ∷ [])
      ≡ emit (alphabet (a / 4) ∷ []) false (done (record { state = at_bit2; bits = a % 4 }))
unfolding loop
encode_one a = rw (encode_at0 a, loop)

pub encode_two :
    (a b : ℕ)
    → loop encode_char new_encoder (a ∷ b ∷ [])
      ≡ emit
          (alphabet (a / 4) ∷ alphabet ((a % 4 * 256 + b) / 16) ∷ [])
          false
          (done (record { state = at_bit4; bits = b % 16 }))
unfolding loop
encode_two a b = rw (encode_at0 a, loop) (rw (encode_at2 (a % 4) b (omega arith), loop))

pub tail_one :
    (a : ℕ)
    → IsByte a
    → Decodes (alphabet (a / 4) ∷ alphabet (a % 4 * 16) ∷ b'=' ∷ b'=' ∷ []) (a ∷ [])
unfolding decode_bits
tail_one a p =
    rw
      (loop_letter new_decoder (record { state = at_bit2; bits = a / 4 }) (a / 4) [] _ (omega arith)
        (omega arith) (ground arith))
      (rw
        (loop_letter (record { state = at_bit2; bits = a / 4 })
          (record { state = at_bit4; bits = 0 }) (a % 4 * 16) (a ∷ []) _ (omega arith) (omega arith)
          (ground arith))
        (rw loop_pad (rw loop_pad (unfold loop in (refl, refl, refl, refl)))))

pub tail_two :
    (a b : ℕ)
    → IsByte a
    → IsByte b
    → Decodes
        (alphabet (a / 4) ∷ alphabet ((a % 4 * 256 + b) / 16) ∷ alphabet (b % 16 * 4) ∷ b'=' ∷ [])
        (a ∷ b ∷ [])
unfolding decode_bits
tail_two a b p q =
    rw
      (loop_letter new_decoder (record { state = at_bit2; bits = a / 4 }) (a / 4) [] _ (omega arith)
        (omega arith) (ground arith))
      (rw
        (loop_letter (record { state = at_bit2; bits = a / 4 })
          (record { state = at_bit4; bits = b / 16 }) ((a % 4 * 256 + b) / 16) (a ∷ []) _
          (omega arith) (omega arith) (ground arith))
        (rw
          (loop_letter (record { state = at_bit4; bits = b / 16 })
            (record { state = at_bit6; bits = 0 }) (b % 16 * 4) (b ∷ []) _ (omega arith)
            (omega arith) (ground arith))
          (rw loop_pad (unfold loop in (refl, refl, refl, refl)))))
