-- ===== src/Backslash/Room.antt =====
-- The encoder and the room in its output buffer.
use wvstreams.Prelude.{
  ℕ, ◌+◌, ◌-◌, ◌*◌, ◌<◌, ◌≤◌, Bool, true, false, not, some, ◌>>=◌, List, append-nil, Option, [],
  ◌∷◌, ◌++◌, append_assoc, Bytes, length, length-append, ltb, ◌≡◌, refl, sym, ap, ◌∙◌, arith,
  Option-cases, inl, inr,
}
use wvstreams.Backslash.{
  escapein, escapeout, paired, sequence, Written, encode_chunk, OutBuf, unget, encode, Encoded,
}

-- what the encoder writes for a text
unfoldable pub sequences : Bytes → Bytes → Bytes
sequences nasties [] = []
sequences nasties (c ∷ cs) = sequence nasties c ++ sequences nasties cs

length-sequence : (nasties : Bytes) (c : ℕ) → length (sequence nasties c) ≤ 4
unfolding sequence
length-sequence nasties c = elim (Option-cases (paired escapein escapeout c)) [
  | inl h ↦ rw h (ground arith)
  | inr (l, h) ↦ rw h (ground arith)
]

pub length-sequences : (nasties text : Bytes) → length (sequences nasties text) ≤ 4 * length text
unfolding sequences
length-sequences nasties [] = omega arith
length-sequences nasties (c ∷ cs) = omega (
  arith,
  length-append {0} (sequence nasties c) (sequences nasties cs),
  length-sequence nasties c,
  length-sequences nasties cs,
)

sequences-append :
    (nasties v w : Bytes) → sequences nasties (v ++ w) ≡ sequences nasties v ++ sequences nasties w
unfolding sequences
sequences-append nasties [] w = refl
sequences-append nasties (c ∷ v) w =
    ap (◌++◌ (sequence nasties c)) (sequences-append nasties v w)
    ∙ sym (append_assoc (sequence nasties c) (sequences nasties v) (sequences nasties w))

length-sequences_more :
    (nasties v w : Bytes)
    → length (sequences nasties (v ++ w))
      ≡ length (sequences nasties v) + length (sequences nasties w)
length-sequences_more nasties v w =
    ap length (sequences-append nasties v w)
    ∙ length-append (sequences nasties v) (sequences nasties w)

fits : (a b : ℕ) → b ≤ a → ltb a b ≡ false
fits a b h = ground arith

chunk_fits :
    (nasties datain : Bytes) (avail : ℕ)
    → length (sequences nasties datain) ≤ avail
    → encode_chunk nasties datain avail ≡ record {
      out = sequences nasties datain;
      avail = avail - length (sequences nasties datain);
      lost = [];
    }
unfolding encode_chunk sequences
chunk_fits nasties [] avail h = ap (λ n. record { out = []; avail = n; lost = [] }) (omega arith)
chunk_fits nasties (c ∷ cs) avail h =
    let size = length-append {0} (sequence nasties c) (sequences nasties cs) in
    let room : avail - length (sequence nasties c) - length (sequences nasties cs)
        ≡ avail - length (sequence nasties c ++ sequences nasties cs) =
      omega (arith, size) in
    rw (fits avail (length (sequence nasties c)) (omega (arith, size, h))) (
      rw (chunk_fits nasties cs (avail - length (sequence nasties c)) (omega (arith, size, h)))
        (rw room refl))

-- where the room ends in a chunk
record Stopped (nasties datain : Bytes) (avail : ℕ) : Type 0 where
  written : Bytes
  next : ℕ
  lost : Bytes
  whole : datain ≡ written ++ next ∷ lost
  room : length (sequences nasties written) ≤ avail
  full : avail < length (sequences nasties (written ++ next ∷ []))
  output : (encode_chunk nasties datain avail).out ≡ sequences nasties written
  left : (encode_chunk nasties datain avail).lost ≡ next ∷ lost

-- the text that stands in the chunks of the input
abbrev pub flatten : List Bytes → Bytes
flatten [] = []
flatten (datain ∷ inbuf) = datain ++ flatten inbuf

abbrev pub put : Bytes → OutBuf → OutBuf
put bytes b = record b { queue = b.queue ++ bytes }

put_twice : (v w : Bytes) (b : OutBuf) → put w (put v b) ≡ put (v ++ w) b
put_twice v w b = rw (append_assoc b.queue v w) refl

-- one round, over what the loop over its chunk gives
after_chunk : Bytes → List Bytes → Bool → OutBuf → Written → Option Encoded
after_chunk nasties inbuf flush b w =
    let written = put w.out b in
    elim w.lost [
      | [] ↦ encode nasties inbuf w.avail flush written
      | c ∷ lost ↦ do
        b' ← unget (length (c ∷ lost)) written
        some (record { outbuf = b'; inbuf = inbuf; ok = not flush })
    ]

encode_round :
    (nasties datain : Bytes) (inbuf : List Bytes) (avail : ℕ) (flush : Bool) (b : OutBuf)
    → encode nasties (datain ∷ inbuf) avail flush b
      ≡ after_chunk nasties inbuf flush b (encode_chunk nasties datain avail)
unfolding encode after_chunk
encode_round nasties datain inbuf avail flush b = refl

encode_next :
    (nasties datain : Bytes) (inbuf : List Bytes) (avail : ℕ) (flush : Bool) (b : OutBuf)
    → length (sequences nasties datain) ≤ avail
    → encode nasties (datain ∷ inbuf) avail flush b
      ≡ encode nasties inbuf
          (avail - length (sequences nasties datain))
          flush
          (put (sequences nasties datain) b)
encode_next nasties datain inbuf avail flush b h =
    encode_round nasties datain inbuf avail flush b
    ∙ ap (after_chunk nasties inbuf flush b) (chunk_fits nasties datain avail h)
    ∙ unfold after_chunk in refl

-- With enough room the encoder writes all of it.
pub encode_room :
    (nasties : Bytes) (inbuf : List Bytes) (avail : ℕ) (flush : Bool) (b : OutBuf)
    → length (sequences nasties (flatten inbuf)) ≤ avail
    → encode nasties inbuf avail flush b
      ≡ some (record { outbuf = put (sequences nasties (flatten inbuf)) b; inbuf = []; ok = true })
encode_room nasties [] avail flush b h = unfold encode sequences in rw (append-nil b.queue) refl
encode_room nasties (datain ∷ inbuf) avail flush b h =
    let size = length-sequences_more nasties datain (flatten inbuf) in
    encode_next nasties datain inbuf avail flush b (omega (arith, size, h))
    ∙ encode_room nasties inbuf (avail - length (sequences nasties datain)) flush
        (put (sequences nasties datain) b) (omega (arith, size, h))
    ∙ rw
        (
          put_twice (sequences nasties datain) (sequences nasties (flatten inbuf)) b,
          sequences-append nasties datain (flatten inbuf),
        )
        refl

-- What a call leaves that stops for want of room: the text it wrote, the characters of the chunk at which it
-- stopped, and the chunks that it left in the input.
pub record StopsHalfway (nasties : Bytes) (inbuf : List Bytes) (avail : ℕ) (flush : Bool)
    (b : OutBuf) : Type 0 where
  pub written : Bytes
  pub next : ℕ
  pub lost : Bytes
  pub later : List Bytes
  pub whole : flatten inbuf ≡ written ++ (next ∷ lost ++ flatten later)
  pub room : length (sequences nasties written) ≤ avail
  pub full : avail < length (sequences nasties (written ++ next ∷ []))
  pub result : encode nasties inbuf avail flush b ≡ (
      unget (length (next ∷ lost)) (put (sequences nasties written) b) >>= λ outbuf.
      some (record { outbuf = outbuf; inbuf = later; ok = not flush }))
