-- ===== src/Backslash/RoundTrip.antt =====
-- The decoder reads back what the encoder wrote.
use wvstreams.Prelude.{
  ◌>>=◌, List, ℕ, ◌*◌, ◌/◌, ◌%◌, ◌<◌, ◌≤◌, Bool, true, false, not, ◌&&◌, none, some, [], ◌∷◌, ◌++◌,
  append_assoc, append-nil, Bytes, IsByte, All, length, leb, ◌==◌, ◌≡◌, refl, sym, ap, ◌∙◌, arith,
  Bool-cases, Option-cases, inl, inr,
}
use wvstreams.Backslash.Room.{sequences, length-sequences, flatten, encode_room}
use wvstreams.Ctype.{isdigit, isprint, tohex}
use wvstreams.Backslash.{
  escapein, escapeout, paired, strchr, fromhex, sequence, encode, WvBackslashDecoder, escape,
  new_decoder, flushtmpbuf, escaped, decode_char, decode_loop, decode,
}

-- a character that stands for itself behind a backslash
abbrev pub is_harmless : ℕ → Bool
is_harmless c = not (leb b'0' c && leb c b'3') && not (c == b'x') && not (strchr escapeout c)

-- a decoder between sequences, that has written `o`
abbrev pub ready : Bytes → WvBackslashDecoder
ready o = record new_decoder { out = o }

decode_plain :
    (c : ℕ) (o : Bytes) → (c == 92) ≡ false → decode_char c (ready o) ≡ ready (o ++ c ∷ [])
unfolding decode_char flushtmpbuf
decode_plain c o h = rw h

abbrev open_escape : Bytes → WvBackslashDecoder
open_escape o = record { state = escape; value = none; tmpbuf = 92 ∷ []; out = o }

decode_backslash : (o : Bytes) → decode_char 92 (ready o) ≡ open_escape o
unfolding decode_char flushtmpbuf
decode_backslash o = refl

harmless_parts :
    (c : ℕ)
    → is_harmless c ≡ true
    → (paired escapeout escapein c ≡ none)
      × ((leb b'0' c && leb c b'3') ≡ false)
      × ((c == b'x') ≡ false)
unfolding paired
harmless_parts c h = ground arith

special_parts :
    (c l : ℕ)
    → paired escapein escapeout c ≡ some l
    → (paired escapeout escapein l ≡ some c)
      × ((leb b'0' l && leb l b'3') ≡ false)
      × ((l == b'x') ≡ false)
      × ((l == 10) ≡ false)
unfolding paired
special_parts c l h = ground arith

decode_harmless :
    (c : ℕ) (o : Bytes) → is_harmless c ≡ true → decode_char c (open_escape o) ≡ ready (o ++ c ∷ [])
unfolding decode_char flushtmpbuf escaped
decode_harmless c o h =
    let (p, d, x) = harmless_parts c h in
    rw (d, x, p)
      (elim (Bool-cases (c == 10)) [
        | inl e ↦ rw e (ap (λ k. ready (o ++ k ∷ [])) (ground arith))
        | inr e ↦ rw e
      ])

decode_special :
    (c l : ℕ) (o : Bytes)
    → paired escapein escapeout c ≡ some l
    → decode_char l (open_escape o) ≡ ready (o ++ c ∷ [])
unfolding decode_char flushtmpbuf escaped
decode_special c l o h = let (p, d, x, n) = special_parts c l h in rw (d, x, n, p)

fromhex-tohex : (d : ℕ) → d < 16 → fromhex (tohex d 87) ≡ some d
unfolding fromhex tohex isdigit
fromhex-tohex d h = ground arith

decode_hex :
    (c : ℕ) (o : Bytes)
    → c < 256
    → decode_char
        (tohex (c % 16) 87)
        (decode_char (tohex (c / 16) 87) (decode_char b'x' (open_escape o)))
      ≡ ready (o ++ c ∷ [])
unfolding decode_char flushtmpbuf escaped
decode_hex c o h =
    rw (fromhex-tohex (c / 16) (omega (arith, h)), fromhex-tohex (c % 16) (omega arith))
      (ap (λ k. ready (o ++ k ∷ [])) (omega arith))

decode_loop-append :
    (xs ys : Bytes) (d : WvBackslashDecoder)
    → decode_loop (xs ++ ys) d ≡ decode_loop ys (decode_loop xs d)
unfolding decode_loop
decode_loop-append [] ys d = refl
decode_loop-append (x ∷ xs) ys d = decode_loop-append xs ys (decode_char x d)

-- the characters that are to be quoted hold the backslash, and none that is more than itself behind one
abbrev pub AreQuotable : Bytes → Type 0
AreQuotable nasties =
    (strchr nasties 92 ≡ true) × ((c : ℕ) → strchr nasties c ≡ true → is_harmless c ≡ true)

decode_two :
    (c l : ℕ) (o : Bytes)
    → decode_char l (open_escape o) ≡ ready (o ++ c ∷ [])
    → decode_loop (92 ∷ l ∷ []) (ready o) ≡ ready (o ++ c ∷ [])
unfolding decode_loop
decode_two c l o h = rw (decode_backslash o) h

decode_four :
    (c : ℕ) (o : Bytes)
    → c < 256
    → decode_loop (92 ∷ b'x' ∷ tohex (c / 16) 87 ∷ tohex (c % 16) 87 ∷ []) (ready o)
      ≡ ready (o ++ c ∷ [])
unfolding decode_loop
decode_four c o h = rw (decode_backslash o) (decode_hex c o h)

not_backslash :
    (nasties : Bytes) (c : ℕ)
    → strchr nasties 92 ≡ true
    → strchr nasties c ≡ false
    → (c == 92) ≡ false
not_backslash nasties c h k = elim (Bool-cases (c == 92)) [
  | inl e ↦
      let same : c ≡ 92 = ground arith in
      let bad : true ≡ false = sym (ap (strchr nasties) same ∙ h) ∙ k in cc
  | inr e ↦ e
]

decode-sequence :
    (nasties : Bytes) (c : ℕ) (o : Bytes)
    → AreQuotable nasties
    → c < 256
    → decode_loop (sequence nasties c) (ready o) ≡ ready (o ++ c ∷ [])
unfolding sequence
decode-sequence nasties c o q b = elim (Bool-cases (c == 0)) [
  | inl e ↦ rw e (decode_four c o b)
  | inr e ↦ rw e (elim (Bool-cases (strchr nasties c)) [
    | inl e' ↦ rw e' (decode_two c c o (decode_harmless c o (q.1 c e')))
    | inr e' ↦ rw e' (elim (Option-cases (paired escapein escapeout c)) [
      | inr (l, h) ↦ rw h (decode_two c l o (decode_special c l o h))
      | inl h ↦ rw h (elim (Bool-cases (isprint c)) [
        | inl p ↦ rw p (unfold decode_loop in decode_plain c o (not_backslash nasties c q.0 e'))
        | inr p ↦ rw p (decode_four c o b)
      ])
    ])
  ])
]

decode_first :
    (nasties : Bytes) (c : ℕ) (cs o : Bytes)
    → decode_loop (sequences nasties (c ∷ cs)) (ready o)
      ≡ decode_loop (sequences nasties cs) (decode_loop (sequence nasties c) (ready o))
unfolding sequences
decode_first nasties c cs o =
    decode_loop-append (sequence nasties c) (sequences nasties cs) (ready o)

decode-sequences :
    (nasties text o : Bytes)
    → AreQuotable nasties
    → All IsByte text
    → decode_loop (sequences nasties text) (ready o) ≡ ready (o ++ text)
decode-sequences nasties [] o q b = unfold decode_loop sequences in rw append-nil
decode-sequences nasties (c ∷ cs) o q b =
    decode_first nasties c cs o
    ∙ ap (decode_loop (sequences nasties cs)) (decode-sequence nasties c o q b.0)
    ∙ decode-sequences nasties cs (o ++ c ∷ []) q b.1
    ∙ rw append_assoc

flushtmpbuf-ready : (o : Bytes) → flushtmpbuf (ready o) ≡ ready o
unfolding flushtmpbuf
flushtmpbuf-ready o = rw append-nil

decode-ready :
    (written text : Bytes) (flush : Bool)
    → decode_loop written (ready []) ≡ ready text
    → decode written flush new_decoder ≡ ready text
unfolding decode
decode-ready written text true h = rw (flushtmpbuf-ready [], h) (flushtmpbuf-ready text)
decode-ready written text false h = rw (flushtmpbuf-ready []) h

-- The decoder reads any bytes back that the encoder wrote into an empty buffer with four
-- characters of room for each, in whatever chunks it got them, and is then between two sequences,
-- flushed or not. The characters to be quoted are any that hold the backslash and none that has a
-- meaning behind one.
pub decode-encode_backslash :
    (nasties taken : Bytes) (inbuf : List Bytes) (avail : ℕ) (flush flush' : Bool)
    → AreQuotable nasties
    → All IsByte (flatten inbuf)
    → 4 * length (flatten inbuf) ≤ avail
    → (encode nasties inbuf avail flush (record { taken = taken; queue = [] }) >>= λ e.
        some (decode e.outbuf.queue flush' new_decoder))
      ≡ some (ready (flatten inbuf))
decode-encode_backslash nasties taken inbuf avail flush flush' q b room =
    rw
      (encode_room nasties inbuf avail flush (record { taken = taken; queue = [] })
        (omega (arith, room, length-sequences nasties (flatten inbuf))))
      (ap some (
        decode-ready (sequences nasties (flatten inbuf)) (flatten inbuf) flush'
          (decode-sequences nasties (flatten inbuf) [] q b)))
