-- ===== src/WordWrap/Width.antt =====
-- What the encoder writes: no line is wider than `maxwidth`, and no character but blanks and line ends
-- comes or goes.
use wvstreams.Prelude.{
  ℕ, ◌+◌, ◌≤◌, ◌<◌, true, false, some, [], ◌∷◌, ◌++◌, append_assoc, append-nil, Bytes, All, length,
  length-append, leb, ◌==◌, ◌≡◌, ◌⊎◌, refl, sym, ap, ◌∙◌, arith, Bool-cases, inl, inr,
}
use wvstreams.WordWrap.{
  WvWordWrapEncoder, new_encoder, flushline, encode_char, encode_loop, encode, past_space, past_tab,
}
use wvstreams.WordWrap.Column.{
  past, column, is_letter, letters, letters-append, column-append, column_prefix, column_more,
  past_letter, column_letters, letters_blank, letters_more, letters_newline,
}
use wvstreams.WordWrap.Shape.{
  Shape, between, within, state, after_char, after_newline, after_blank, after_letter, add_blank,
  broken, width_of, add_letter, IsBounded, encode_char-state,
}

abbrev text_of : Shape → Bytes
text_of (between o bs n) = o ++ bs
text_of (within o bs ws n) = o ++ (bs ++ ws)

abbrev IsTidy : Shape → Type 0
IsTidy (between o bs n) = letters bs ≡ []
IsTidy (within o bs ws n) = (letters bs ≡ []) × All (λ x. is_letter x ≡ true) ws

-- the encoder has taken a text with these letters
record IsValid (m : ℕ) (seen : Bytes) (s : Shape) : Type 0 where
  bounded : IsBounded m s
  kept : letters (text_of s) ≡ seen
  fits : (c : ℕ) × (column m 0 (text_of s) ≡ some c) × ((c ≡ width_of s) ⊎ (m < width_of s))
  tidy : IsTidy s

-- behind a line end
line_end :
    (m e : ℕ) (seen xs : Bytes)
    → letters xs ≡ seen
    → column m 0 xs ≡ some e
    → IsValid m seen (between (xs ++ 10 ∷ []) [] 0)
line_end m e seen xs k h = record {
  bounded = (omega arith, omega arith);
  kept = rw append-nil (letters_newline xs ∙ k);
  fits = (0, rw append-nil (column_more m 0 e 10 xs h (omega arith)), inl refl);
  tidy = unfold letters in refl;
}

after_newline-IsValid :
    (m : ℕ) (seen : Bytes) (s : Shape) → IsValid m seen s → IsValid m seen (after_newline s)
after_newline-IsValid m seen (between o bs n) v =
    let before = column_prefix m 0 v.fits.0 o bs v.fits.1 in
    line_end m before.0 seen o (sym (letters_blank o bs v.tidy) ∙ v.kept) before.1
after_newline-IsValid m seen (within o bs ws n) v =
    line_end m v.fits.0 seen (o ++ (bs ++ ws)) v.kept v.fits.1

add_blank-IsValid :
    (m ch k n : ℕ) (seen o bs : Bytes)
    → IsValid m seen (between o bs n)
    → is_letter ch ≡ false
    → past n ch ≡ k
    → n < k
    → IsValid m seen (add_blank m ch o bs k)
add_blank-IsValid m ch k n seen o bs v b p lt = elim (Bool-cases (leb k m)) [
  | inl e ↦ rw e (fitting (ground arith))
  | inr e ↦ rw e (record {
    bounded = (omega (arith, v.bounded.0, lt), v.bounded.1);
    kept = v.kept;
    fits = (v.fits.0, v.fits.1, inr (ground arith));
    tidy = v.tidy;
  })
]
  where
    none_of : letters (ch ∷ []) ≡ []
    none_of = unfold letters in rw b

    exact : k ≤ m → v.fits.0 ≡ n
    exact le = ground (arith, v.fits.2)

    fitting : k ≤ m → IsValid m seen (between o (bs ++ ch ∷ []) k)
    fitting le = record {
      bounded = ground (arith, length-append {0} bs (ch ∷ []), v.bounded.0, exact le);
      kept =
          rw (← append_assoc o bs (ch ∷ [])) (letters_blank (o ++ bs) (ch ∷ []) none_of ∙ v.kept);
      fits = (
        k,
        rw (← append_assoc o bs (ch ∷ []))
            (column_more m 0 n ch (o ++ bs) (v.fits.1 ∙ ap some (exact le)) (rw p le) ∙ ap some p),
        inl refl,
      );
      tidy = letters_blank bs (ch ∷ []) none_of ∙ v.tidy;
    }

after_blank-IsValid :
    (m ch : ℕ) (advance : ℕ → ℕ) (seen : Bytes) (s : Shape)
    → IsValid m seen s
    → is_letter ch ≡ false
    → ((n : ℕ) → past n ch ≡ advance n)
    → ((n : ℕ) → n < advance n)
    → IsValid m seen (after_blank m ch advance s)
after_blank-IsValid m ch advance seen (between o bs n) v b p lt =
    add_blank-IsValid m ch (advance n) n seen o bs v b (p n) (lt n)
after_blank-IsValid m ch advance seen (within o bs ws n) v b p lt =
    add_blank-IsValid m ch (advance n) n seen (o ++ (bs ++ ws)) [] flushed b (p n) (lt n)
  where
    flushed : IsValid m seen (between (o ++ (bs ++ ws)) [] n)
    flushed = record {
      bounded = (omega arith, omega arith);
      kept = rw append-nil v.kept;
      fits = (v.fits.0, rw append-nil v.fits.1, v.fits.2);
      tidy = unfold letters in refl;
    }

broken-IsValid : (m : ℕ) (seen : Bytes) (s : Shape) → IsValid m seen s → IsValid m seen (broken s)
broken-IsValid m seen (between o bs n) v = after_newline-IsValid m seen (between o bs n) v
broken-IsValid m seen (within o [] ws n) v = line_end m v.fits.0 seen (o ++ ws) v.kept v.fits.1
broken-IsValid m seen (within o (b ∷ bs) ws n) v =
    let before = column_prefix m 0 v.fits.0 o ((b ∷ bs) ++ ws) v.fits.1 in
    record {
      bounded = (omega arith, omega (arith, v.bounded.0, v.bounded.1));
      kept =
          letters-append (o ++ 10 ∷ []) ws
          ∙ rw (letters_newline o) (
              sym (letters-append o ((b ∷ bs) ++ ws) ∙ rw (letters-append (b ∷ bs) ws, v.tidy.0))
              ∙ v.kept);
      fits = (
        length ws,
        column-append m 0 (o ++ 10 ∷ []) ws
            ∙ rw (column_more m 0 before.0 10 o before.1 (omega arith)) (
                column_letters m 0 ws v.tidy.1 (omega (arith, v.bounded.0, v.bounded.1))
                ∙ ap some (omega arith)),
        inl refl,
      );
      tidy = (unfold letters in refl, v.tidy.1);
    }

column_letter :
    (m n ch : ℕ) (xs : Bytes) (c : ℕ)
    → column m 0 xs ≡ some c
    → (c ≡ n) ⊎ (m < n)
    → is_letter ch ≡ true
    → n < m
    → column m 0 (xs ++ ch ∷ []) ≡ some (n + 1)
column_letter m n ch xs c h w l lt =
    let exact : c ≡ n = ground arith in
    column_more m 0 c ch xs h (rw (past_letter c ch l, exact) (omega (arith, lt)))
    ∙ ap some (rw (past_letter c ch l, exact))

All-more :
    (ws : Bytes) (ch : ℕ)
    → All (λ x. is_letter x ≡ true) ws
    → is_letter ch ≡ true
    → All (λ x. is_letter x ≡ true) (ws ++ ch ∷ [])
All-more [] ch h l = (l, tt)
All-more (x ∷ ws) ch h l = (h.0, All-more ws ch h.1 l)

broken_room : (m : ℕ) (s : Shape) → 1 ≤ m → IsBounded m s → width_of (broken s) < m
broken_room m (between o bs n) p b = p
broken_room m (within o [] ws n) p b = p
broken_room m (within o (c ∷ bs) ws n) p b = omega (arith, b.0, b.1)

add_letter-IsValid :
    (m ch : ℕ) (seen : Bytes) (s : Shape)
    → IsValid m seen s
    → is_letter ch ≡ true
    → width_of s < m
    → IsValid m (seen ++ ch ∷ []) (add_letter ch s)
add_letter-IsValid m ch seen (between o bs n) v l lt = record {
  bounded = (omega (arith, v.bounded.0), omega (arith, lt));
  kept = rw (← append_assoc o bs (ch ∷ [])) (letters_more (o ++ bs) ch l ∙ ap (◌++ ch ∷ []) v.kept);
  fits = (
    n + 1,
    rw (← append_assoc o bs (ch ∷ []))
        (column_letter m n ch (o ++ bs) v.fits.0 v.fits.1 v.fits.2 l lt),
    inl refl,
  );
  tidy = (v.tidy, (l, tt));
}
add_letter-IsValid m ch seen (within o bs ws n) v l lt = record {
  bounded = (omega (arith, v.bounded.0, length-append {0} ws (ch ∷ [])), omega (arith, lt));
  kept =
      rw (← append_assoc bs ws (ch ∷ []), ← append_assoc o (bs ++ ws) (ch ∷ []))
        (letters_more (o ++ (bs ++ ws)) ch l ∙ ap (◌++ ch ∷ []) v.kept);
  fits = (
    n + 1,
    rw (← append_assoc bs ws (ch ∷ []), ← append_assoc o (bs ++ ws) (ch ∷ []))
        (column_letter m n ch (o ++ (bs ++ ws)) v.fits.0 v.fits.1 v.fits.2 l lt),
    inl refl,
  );
  tidy = (v.tidy.0, All-more ws ch v.tidy.1 l);
}

after_letter-IsValid :
    (m ch : ℕ) (seen : Bytes) (s : Shape)
    → 1 ≤ m
    → IsValid m seen s
    → is_letter ch ≡ true
    → IsValid m (seen ++ ch ∷ []) (after_letter m ch s)
after_letter-IsValid m ch seen s p v l = elim (Bool-cases (leb m (width_of s))) [
  | inl e ↦ rw e (
      add_letter-IsValid m ch seen (broken s) (broken-IsValid m seen s v) l
        (broken_room m s p v.bounded))
  | inr e ↦ rw e (add_letter-IsValid m ch seen s v l (ground arith))
]

after_char-IsValid :
    (m ch : ℕ) (seen : Bytes) (s : Shape)
    → 1 ≤ m
    → IsValid m seen s
    → IsValid m (seen ++ letters (ch ∷ [])) (after_char m ch s)
after_char-IsValid m ch seen s p v = elim (Bool-cases (ch == 10)) [
  | inl e ↦ rw e (unseen (ground arith) (after_newline-IsValid m seen s v))
  | inr e ↦ rw e (elim (Bool-cases (ch == 32)) [
    | inl e' ↦ rw e' (
        unseen (ground arith) (
          after_blank-IsValid m ch past_space seen s v (ground arith) (λ n. ground arith)
            (λ n. omega arith)))
    | inr e' ↦ rw e' (elim (Bool-cases (ch == 9)) [
      | inl e'' ↦ rw e'' (
          unseen (ground arith) (
            after_blank-IsValid m ch past_tab seen s v (ground arith) (λ n. ground arith)
              (λ n. omega arith)))
      | inr e'' ↦ rw e'' (
          let l : is_letter ch ≡ true = ground arith in
          unfold letters in rw l (after_letter-IsValid m ch seen s p v l))
    ])
  ])
]
  where
    unseen :
        {t : Shape}
        → is_letter ch ≡ false
        → IsValid m seen t
        → IsValid m (seen ++ letters (ch ∷ [])) t
    unseen l h = unfold letters in rw (l, append-nil) h

encode_loop_step :
    (ch : ℕ) (text : Bytes) (w w' : WvWordWrapEncoder)
    → encode_char ch w ≡ some w'
    → encode_loop (ch ∷ text) w ≡ encode_loop text w'
unfolding encode_loop
encode_loop_step ch text w w' h = rw h

encode_loop-IsValid :
    (m : ℕ) (text seen : Bytes) (s : Shape)
    → 1 ≤ m
    → IsValid m seen s
    → (t : Shape) × (encode_loop text (state m s) ≡ some (state m t))
      × IsValid m (seen ++ letters text) t
encode_loop-IsValid m [] seen s p v =
    (s, unfold encode_loop in refl, unfold letters in rw append-nil v)
encode_loop-IsValid m (ch ∷ text) seen s p v =
    let (t, ran, valid) =
      encode_loop-IsValid m text (seen ++ letters (ch ∷ [])) (after_char m ch s) p
        (after_char-IsValid m ch seen s p v) in
    (
      t,
      encode_loop_step ch text (state m s) (state m (after_char m ch s))
            (encode_char-state m ch s p v.bounded)
          ∙ ran,
      rw (letters-append (ch ∷ []) text, ← append_assoc seen (letters (ch ∷ [])) (letters text))
          valid,
    )

flushline-out : (m : ℕ) (s : Shape) → (flushline (state m s)).out ≡ text_of s
unfolding flushline
flushline-out m (between o bs n) = refl
flushline-out m (within o bs ws n) = refl

-- At every width but 0 and for every text, with tabs and words longer than a line, the encoder never
-- writes behind its array; once it is flushed, no line that it wrote is wider than the width, where a
-- tab leads to the next multiple of 8, and what it wrote differs from the text in nothing but blanks,
-- tabs and line feeds.
pub encode_fits :
    (m : ℕ) (text : Bytes)
    → 1 ≤ m
    → (w : WvWordWrapEncoder) × (encode text true (new_encoder m) ≡ some w)
      × ((c : ℕ) × (column m 0 w.out ≡ some c))
      × (letters w.out ≡ letters text)
encode_fits m text p =
    let (t, ran, valid) = encode_loop-IsValid m text [] (between [] [] 0) p start in
    (
      flushline (state m t),
      unfold encode in rw ran,
      (valid.fits.0, rw (flushline-out m t) valid.fits.1),
      rw (flushline-out m t) valid.kept,
    )
  where
    start : IsValid m [] (between [] [] 0)
    start = record {
      bounded = (omega arith, omega arith);
      kept = unfold letters in refl;
      fits = (0, unfold column in refl, inl refl);
      tidy = unfold letters in refl;
    }
