-- ===== src/WordWrap/Shape.antt =====
-- The encoder between two words and inside a word. Between words the array holds blanks; inside one it
-- holds the blanks before the word, up to `wordindex`, and the word.
use wvstreams.Prelude.{
  ℕ, ◌+◌, ◌≤◌, ◌<◌, suc, true, false, some, [], ◌∷◌, ◌++◌, append_assoc, append-nil, Bytes, length,
  length-append, drop, leb, lt→ltb, ◌==◌, if◌then◌else◌, ◌≡◌, refl, ap, ◌∙◌, arith, Bool-cases, inl,
  inr,
}
use wvstreams.WordWrap.{
  WvWordWrapEncoder, store, flushline, newline, blank, break_line, break_full, put_letter, putch,
  letter, encode_char, past_space, past_tab,
}

pub data Shape : Type 0 where
  between : (out blanks : Bytes) → ℕ → Shape
  within : (out blanks word : Bytes) → ℕ → Shape

-- the encoder of that shape
abbrev pub state : ℕ → Shape → WvWordWrapEncoder
state m (between o bs n) = record {
  maxwidth = m;
  line = bs;
  width = n;
  wordindex = 0;
  inword = false;
  out = o;
}
state m (within o bs ws n) = record {
  maxwidth = m;
  line = bs ++ ws;
  width = n;
  wordindex = length bs;
  inword = true;
  out = o;
}

abbrev pub add_blank : ℕ → ℕ → Bytes → Bytes → ℕ → Shape
add_blank m ch o bs n = if leb n m then between o (bs ++ ch ∷ []) n else between o bs n

abbrev pub after_newline : Shape → Shape
after_newline (between o bs n) = between (o ++ 10 ∷ []) [] 0
after_newline (within o bs ws n) = between ((o ++ (bs ++ ws)) ++ 10 ∷ []) [] 0

abbrev pub after_blank : ℕ → ℕ → (ℕ → ℕ) → Shape → Shape
after_blank m ch advance (between o bs n) = add_blank m ch o bs (advance n)
after_blank m ch advance (within o bs ws n) = add_blank m ch (o ++ (bs ++ ws)) [] (advance n)

-- the line break that a full line gets: a word behind blanks begins a new line, one without is cut
abbrev pub broken : Shape → Shape
broken (between o bs n) = between (o ++ 10 ∷ []) [] 0
broken (within o [] ws n) = between ((o ++ ws) ++ 10 ∷ []) [] 0
broken (within o (b ∷ bs) ws n) = within (o ++ 10 ∷ []) [] ws (length ws)

abbrev pub width_of : Shape → ℕ
width_of (between o bs n) = n
width_of (within o bs ws n) = n

abbrev pub make_room : ℕ → Shape → Shape
make_room m s = if leb m (width_of s) then broken s else s

abbrev pub add_letter : ℕ → Shape → Shape
add_letter ch (between o bs n) = within o bs (ch ∷ []) (n + 1)
add_letter ch (within o bs ws n) = within o bs (ws ++ ch ∷ []) (n + 1)

abbrev pub after_letter : ℕ → ℕ → Shape → Shape
after_letter m ch s = add_letter ch (make_room m s)

abbrev pub after_char : ℕ → ℕ → Shape → Shape
after_char m ch s =
    if ch == 10
    then after_newline s
    else if ch == 32
    then after_blank m ch past_space s
    else if ch == 9
    then after_blank m ch past_tab s
    else after_letter m ch s

abbrev pub held : Shape → ℕ
held (between o bs n) = length bs
held (within o bs ws n) = length bs + length ws

-- what keeps the writes inside the array
abbrev pub IsBounded : ℕ → Shape → Type 0
IsBounded m (between o bs n) = (length bs ≤ n) × (length bs ≤ m)
IsBounded m (within o bs ws n) = (length bs + length ws ≤ n) × (n ≤ m)

store_room :
    (ch : ℕ) (w : WvWordWrapEncoder)
    → length w.line < w.maxwidth
    → store ch w ≡ some (record w { line = w.line ++ ch ∷ [] })
unfolding store
store_room ch w h = rw (lt→ltb (length w.line) w.maxwidth h)

pub newline-state : (m : ℕ) (s : Shape) → newline (state m s) ≡ state m (after_newline s)
unfolding newline flushline
newline-state m (between o bs n) = rw (append-nil o)
newline-state m (within o bs ws n) = refl

blank_between :
    (m ch : ℕ) (advance : ℕ → ℕ) (o bs : Bytes) (n : ℕ)
    → length bs < advance n
    → length bs ≤ m
    → blank ch advance (state m (between o bs n)) ≡ some (state m (add_blank m ch o bs (advance n)))
unfolding blank
blank_between m ch advance o bs n h k = elim (Bool-cases (leb (advance n) m)) [
  | inl e ↦ rw e (store_room ch (state m (between o bs (advance n))) (ground arith))
  | inr e ↦ rw e
]

flushed_blank :
    (m ch : ℕ) (advance : ℕ → ℕ) (o bs ws : Bytes) (n : ℕ)
    → blank ch advance (state m (within o bs ws n))
      ≡ blank ch advance (state m (between (o ++ (bs ++ ws)) [] n))
unfolding blank flushline
flushed_blank m ch advance o bs ws n = refl

pub blank-state :
    (m ch : ℕ) (advance : ℕ → ℕ) (s : Shape)
    → ((n : ℕ) → n < advance n)
    → IsBounded m s
    → blank ch advance (state m s) ≡ some (state m (after_blank m ch advance s))
blank-state m ch advance (between o bs n) h b =
    blank_between m ch advance o bs n (omega (arith, h n, b.0)) b.1
blank-state m ch advance (within o bs ws n) h b =
    flushed_blank m ch advance o bs ws n
    ∙ blank_between m ch advance (o ++ (bs ++ ws)) [] n (omega (arith, h n)) (omega arith)

drop_blanks : (bs ws : Bytes) → drop (length bs) (bs ++ ws) ≡ ws
drop_blanks [] ws = refl
drop_blanks (b ∷ bs) ws = drop_blanks bs ws

put_letter-state :
    (m ch : ℕ) (s : Shape)
    → held s < m
    → put_letter ch (state m s) ≡ some (state m (add_letter ch s))
unfolding put_letter
put_letter-state m ch (between o bs n) h = store_room ch _ h
put_letter-state m ch (within o bs ws n) h =
    store_room ch _ (omega (arith, length-append {0} bs ws, h)) ∙ rw (append_assoc bs ws (ch ∷ []))

suc_not_zero : (n : ℕ) → (suc n == 0) ≡ false
suc_not_zero n = ground arith

break_line-state : (m : ℕ) (s : Shape) → putch 10 (break_line (state m s)) ≡ state m (broken s)
unfolding break_line flushline
break_line-state m (between o bs n) = refl
break_line-state m (within o [] ws n) = refl
break_line-state m (within o (b ∷ bs) ws n) =
    rw (suc_not_zero (length bs), drop_blanks bs ws)
      (ap (λ k. state m (within (o ++ 10 ∷ []) [] ws k)) (omega (arith, length-append {0} bs ws)))

state_of : (m : ℕ) (s : Shape) → ((state m s).width ≡ width_of s) × ((state m s).maxwidth ≡ m)
state_of m (between o bs n) = (refl, refl)
state_of m (within o bs ws n) = (refl, refl)

break_full-state : (m : ℕ) (s : Shape) → break_full (state m s) ≡ state m (make_room m s)
unfolding break_full
break_full-state m s =
    rw ((state_of m s).0, (state_of m s).1)
      (elim (Bool-cases (leb m (width_of s))) [
        | inl e ↦ rw e (break_line-state m s)
        | inr e ↦ rw e
      ])

held-make_room : (m : ℕ) (s : Shape) → 1 ≤ m → IsBounded m s → held (make_room m s) < m
held-make_room m (between o bs n) p b = ground arith
held-make_room m (within o [] ws n) p b = ground arith
held-make_room m (within o (c ∷ bs) ws n) p b = ground arith

letter-state :
    (m ch : ℕ) (s : Shape)
    → 1 ≤ m
    → IsBounded m s
    → letter ch (state m s) ≡ some (state m (after_letter m ch s))
unfolding letter
letter-state m ch s p b =
    ap (put_letter ch) (break_full-state m s)
    ∙ put_letter-state m ch (make_room m s) (held-make_room m s p b)

past_tab_more : (n : ℕ) → n < past_tab n
past_tab_more n = omega arith

-- The encoder goes from shape to shape and does not write behind the array.
pub encode_char-state :
    (m ch : ℕ) (s : Shape)
    → 1 ≤ m
    → IsBounded m s
    → encode_char ch (state m s) ≡ some (state m (after_char m ch s))
unfolding encode_char
encode_char-state m ch s p b = elim (Bool-cases (ch == 10)) [
  | inl e ↦ rw e (ap some (newline-state m s))
  | inr e ↦ rw e (elim (Bool-cases (ch == 32)) [
    | inl e' ↦ rw e' (blank-state m ch past_space s (λ n. omega arith) b)
    | inr e' ↦ rw e' (elim (Bool-cases (ch == 9)) [
      | inl e'' ↦ rw e'' (blank-state m ch past_tab s past_tab_more b)
      | inr e'' ↦ rw e'' (letter-state m ch s p b)
    ])
  ])
]
