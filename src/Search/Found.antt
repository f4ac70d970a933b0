-- ===== src/Search/Found.antt =====
-- What is found stands where it is found.
use wvstreams.Prelude.{
  ℕ, zero, suc, ◌+◌, ◌<◌, none, some, [], ◌∷◌, ◌++◌, Bytes, length, length-append, ◌≡◌, refl, sym,
  ap, ◌∙◌, arith, Option-cases, ◌⊎◌, inl, inr,
}
use wvstreams.Search.{behind, strstr, replace_loop, strreplace, afterstr, beforestr}

behind_lem : (a text rest : Bytes) → behind a text ≡ some rest → text ≡ a ++ rest
unfolding behind
behind_lem [] text rest e = cc e
behind_lem (x ∷ a) [] rest e = cc e
behind_lem (x ∷ a) (c ∷ text) rest e = grind (arith, e, behind_lem a text rest)

strstr_lem :
    (a text before rest : Bytes)
    → strstr a text ≡ some (before, rest)
    → text ≡ before ++ (a ++ rest)
unfolding strstr
strstr_lem a [] before rest e = elim (Option-cases (behind a [])) [
  | inl n ↦ cc (e, n)
  | inr (r, h) ↦
      let at_end : strstr a [] ≡ some ([], r) = rw h refl in
      let whole = behind_lem a [] r h in cc (e, at_end, whole)
]
strstr_lem a (c ∷ text) before rest e = elim (Option-cases (behind a (c ∷ text))) [
  | inr (r, h) ↦
      let here : strstr a (c ∷ text) ≡ some ([], r) = rw (h, strstr) refl in
      let whole = behind_lem a (c ∷ text) r h in cc (e, here, whole)
  | inl n ↦ elim (Option-cases (strstr a text)) [
    | inl m ↦
        absurd
          (let nowhere : strstr a (c ∷ text) ≡ none = rw (n, strstr) (rw m refl) in cc (e, nowhere))
    | inr ((b, r), h) ↦
        let later : strstr a (c ∷ text) ≡ some (c ∷ b, r) = rw (n, strstr) (rw h refl) in
        let whole = strstr_lem a text b r h in cc (e, later, whole)
  ]
]

-- one round of the loop
replace_none :
    (rounds : ℕ) (s a b : Bytes) → strstr a s ≡ none → replace_loop (suc rounds) s a b ≡ some s
unfolding replace_loop
replace_none rounds s a b n = rw (n, replace_loop) refl

replace_some :
    (rounds : ℕ) (s a b before rest out : Bytes)
    → strstr a s ≡ some (before, rest)
    → replace_loop rounds rest a b ≡ some out
    → replace_loop (suc rounds) s a b ≡ some (before ++ (b ++ out))
unfolding replace_loop
replace_some rounds s a b before rest out h e = rw (h, replace_loop) (rw e refl)

replace_same :
    (rounds x : ℕ) (s a : Bytes)
    → length s < rounds
    → replace_loop rounds s (x ∷ a) (x ∷ a) ≡ some s
replace_same zero x s a h = absurd (omega (arith, h))
replace_same (suc rounds) x s a h = elim (Option-cases (strstr (x ∷ a) s)) [
  | inl n ↦ replace_none rounds s (x ∷ a) (x ∷ a) n
  | inr ((before, rest), e) ↦
      let whole = strstr_lem (x ∷ a) s before rest e in
      let size : length s ≡ length before + (length (x ∷ a) + length rest) =
        ap length whole
        ∙ length-append {0} before ((x ∷ a) ++ rest)
        ∙ ap (λ n. length before + n) (length-append {0} (x ∷ a) rest) in
      replace_some rounds s (x ∷ a) (x ∷ a) before rest rest e
        (replace_same rounds x rest a (omega (arith, size, h)))
      ∙ ap some (sym whole)
]

-- strreplace ends, and a text that is not empty, put in the place of itself, changes nothing.
strreplace_same : (x : ℕ) (s a : Bytes) → strreplace s (x ∷ a) (x ∷ a) ≡ some s
unfolding strreplace
strreplace_same x s a = replace_same (length s + 1) x s a (omega arith)

strstr_empty : (s : Bytes) → strstr [] s ≡ some ([], s)
unfolding strstr behind
strstr_empty [] = refl
strstr_empty (c ∷ s) = refl

-- Of the empty text the loop has no end.
replace_endless : (rounds : ℕ) (s b : Bytes) → replace_loop rounds s [] b ≡ none
unfolding replace_loop
replace_endless zero s b = refl
replace_endless (suc rounds) s b =
    rw (strstr_empty s, replace_loop) (rw (replace_endless rounds s b) refl)

-- Where another text is found in a text, what beforestr gives, the other text and what afterstr gives make up
-- the whole.
before_after :
    (c x : ℕ) (line a before rest : Bytes)
    → beforestr (c ∷ line) (x ∷ a) ≡ some before
    → afterstr (c ∷ line) (x ∷ a) ≡ some rest
    → (strstr (x ∷ a) (c ∷ line) ≡ none) ⊎ (c ∷ line ≡ before ++ ((x ∷ a) ++ rest))
before_after c x line a before rest e h = elim (Option-cases (strstr (x ∷ a) (c ∷ line))) [
  | inl n ↦ inl n
  | inr ((b, r), f) ↦
      let first : beforestr (c ∷ line) (x ∷ a) ≡ some b =
        unfold beforestr in rw (f, beforestr) refl in
      let second : afterstr (c ∷ line) (x ∷ a) ≡ some r =
        unfold afterstr in rw (f, afterstr) refl in
      let whole = strstr_lem (x ∷ a) (c ∷ line) b r f in inr (cc (e, h, first, second, whole))
]
