-- ===== src/WordWrap/Column.antt =====
-- The columns of a text, and the characters of it that are not white.
use wvstreams.Prelude.{
  ◌>>=◌, ℕ, ◌+◌, ◌≤◌, Bool, true, not, ◌&&◌, Option, none, some, [], ◌∷◌, ◌++◌, append-nil, Bytes,
  All, length, leb, le→leb, ◌==◌, if◌then◌else◌, ◌≡◌, refl, sym, ap, ◌∙◌, arith, Bool-cases, inl,
  inr,
}
use wvstreams.WordWrap.{past_space, past_tab}

-- the column behind a character
abbrev pub past : ℕ → ℕ → ℕ
past column ch = if ch == 10 then 0 else if ch == 9 then past_tab column else past_space column

-- the column behind a text, none if some line of it passes the column `m`
unfoldable pub column : ℕ → ℕ → Bytes → Option ℕ
column m c [] = some c
column m c (x ∷ xs) = if leb (past c x) m then column m (past c x) xs else none

abbrev pub is_letter : ℕ → Bool
is_letter ch = not (ch == 10) && not (ch == 32) && not (ch == 9)

unfoldable pub letters : Bytes → Bytes
letters [] = []
letters (x ∷ xs) = if is_letter x then x ∷ letters xs else letters xs

pub letters-append : (xs ys : Bytes) → letters (xs ++ ys) ≡ letters xs ++ letters ys
unfolding letters
letters-append [] ys = refl
letters-append (x ∷ xs) ys = ground (arith, letters-append xs ys)

pub column-append :
    (m c : ℕ) (xs ys : Bytes) → column m c (xs ++ ys) ≡ (column m c xs >>= λ d. column m d ys)
unfolding column
column-append m c [] ys = refl
column-append m c (x ∷ xs) ys = elim (Bool-cases (leb (past c x) m)) [
  | inl e ↦ rw e (column-append m (past c x) xs ys)
  | inr e ↦ rw e
]

bind_some : (o : Option ℕ) (f : ℕ → Option ℕ) (d : ℕ) → (o >>= f) ≡ some d → (e : ℕ) × (o ≡ some e)
bind_some none f d h = cc
bind_some (some e) f d h = (e, refl)

pub column_prefix :
    (m c d : ℕ) (xs ys : Bytes)
    → column m c (xs ++ ys) ≡ some d
    → (e : ℕ) × (column m c xs ≡ some e)
column_prefix m c d xs ys h =
    bind_some (column m c xs) (λ e. column m e ys) d (sym (column-append m c xs ys) ∙ h)

pub column_more :
    (m c e x : ℕ) (xs : Bytes)
    → column m c xs ≡ some e
    → past e x ≤ m
    → column m c (xs ++ x ∷ []) ≡ some (past e x)
column_more m c e x xs h le =
    column-append m c xs (x ∷ []) ∙ rw h (unfold column in rw (le→leb (past e x) m le))

pub past_letter : (c x : ℕ) → is_letter x ≡ true → past c x ≡ c + 1
past_letter c x h = ground arith

pub column_letters :
    (m c : ℕ) (ws : Bytes)
    → All (λ x. is_letter x ≡ true) ws
    → c + length ws ≤ m
    → column m c ws ≡ some (c + length ws)
unfolding column
column_letters m c [] h le = ap some (omega arith)
column_letters m c (x ∷ ws) h le =
    rw (past_letter c x h.0, le→leb (c + 1) m (omega (arith, le)))
      (column_letters m (c + 1) ws h.1 (omega (arith, le)) ∙ ap some (omega arith))

pub letters_blank : (xs bs : Bytes) → letters bs ≡ [] → letters (xs ++ bs) ≡ letters xs
letters_blank xs bs h = letters-append xs bs ∙ rw (h, append-nil)

pub letters_more :
    (xs : Bytes) (ch : ℕ) → is_letter ch ≡ true → letters (xs ++ ch ∷ []) ≡ letters xs ++ ch ∷ []
letters_more xs ch h = letters-append xs (ch ∷ []) ∙ unfold letters in rw h

pub letters_newline : (xs : Bytes) → letters (xs ++ 10 ∷ []) ≡ letters xs
letters_newline xs = letters_blank xs (10 ∷ []) (unfold letters in refl)
