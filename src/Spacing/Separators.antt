-- ===== src/Spacing/Separators.antt =====
-- Two texts joined by one separator.
use wvstreams.Prelude.{
  ℕ, zero, suc, ◌+◌, true, false, none, some, [], ◌∷◌, ◌++◌, append_assoc, Bytes, length, take,
  length-append, get_elem?-append, ltb, ◌==◌, ◌≡◌, ◌≢◌, refl, subst, ap, ◌∙◌, arith,
}
use wvstreams.Spacing.{eat_back, eat_front, spacecat}

-- some separators, and what follows them
abbrev separators : ℕ → ℕ → Bytes → Bytes
separators sep zero text = text
separators sep (suc k) text = sep ∷ separators sep k text

length-separators : (sep k : ℕ) (text : Bytes) → length (separators sep k text) ≡ length text + k
length-separators sep zero text = omega arith
length-separators sep (suc k) text = omega (arith, length-separators sep k text)

eat_back_here :
    (sep c : ℕ) (a after : Bytes)
    → c ≢ sep
    → eat_back sep (a ++ c ∷ after) (suc (length a)) ≡ some (suc (length a))
unfolding eat_back
eat_back_here sep c a after n =
    let e : (c == sep) ≡ false = ground (arith, n) in rw (get_elem?-append a c after) (rw e refl)

eat_back_one :
    (sep : ℕ) (a after : Bytes)
    → eat_back sep (a ++ sep ∷ after) (suc (length a)) ≡ eat_back sep (a ++ sep ∷ after) (length a)
unfolding eat_back
eat_back_one sep a after =
    let e : (sep == sep) ≡ true = ground arith in rw (get_elem?-append a sep after) (rw e refl)

eat_back-separators :
    (sep k : ℕ) (a after : Bytes)
    → eat_back sep (a ++ separators sep k after) (length a + k)
      ≡ eat_back sep (a ++ separators sep k after) (length a)
eat_back-separators sep zero a after = ap (eat_back sep (a ++ after)) (omega arith)
eat_back-separators sep (suc k) a after =
    let text = a ++ sep ∷ separators sep k after in
    let cut : (a ++ sep ∷ []) ++ separators sep k after ≡ text =
      append_assoc a (sep ∷ []) (separators sep k after) in
    let size : length (a ++ sep ∷ []) ≡ suc (length a) =
      omega (arith, length-append {0} a (sep ∷ [])) in
    ap (eat_back sep text) (omega (arith, size))
    ∙ subst
        (λ t. eat_back sep t (length (a ++ sep ∷ []) + k) ≡ eat_back sep t (length (a ++ sep ∷ [])))
        cut (eat_back-separators sep k (a ++ sep ∷ []) after)
    ∙ ap (eat_back sep text) size
    ∙ eat_back_one sep a (separators sep k after)

-- a text that starts with no separator, and with no zero that is one
abbrev StartsOther : ℕ → Bytes → Type 0
StartsOther sep [] = sep ≢ 0
StartsOther sep (c ∷ b) = c ≢ sep

eat_front-separators :
    (sep k : ℕ) (b : Bytes) → StartsOther sep b → eat_front sep (separators sep k b) ≡ some b
unfolding eat_front
eat_front-separators sep zero [] h = let e : (sep == 0) ≡ false = ground (arith, h) in rw e refl
eat_front-separators sep zero (c ∷ b) h =
    let e : (c == sep) ≡ false = ground (arith, h) in rw e refl
eat_front-separators sep (suc k) b h =
    let e : (sep == sep) ≡ true = ground arith in rw e (eat_front-separators sep k b h)

eat_back_nothing : (sep : ℕ) (a : Bytes) → eat_back sep a 0 ≡ none
unfolding eat_back
eat_back_nothing sep a = refl

-- of separators alone the loop reads on, before the text
eat_back_outside :
    (sep k : ℕ) → eat_back sep (separators sep k []) (length (separators sep k [])) ≡ none
eat_back_outside sep k =
    ap (eat_back sep (separators sep k [])) (length-separators sep k [])
    ∙ eat_back-separators sep k [] []
    ∙ eat_back_nothing sep (separators sep k [])

eat_back_text :
    (sep c k : ℕ) (a : Bytes)
    → c ≢ sep
    → eat_back sep (a ++ c ∷ separators sep k []) (length (a ++ c ∷ separators sep k []))
      ≡ some (suc (length a))
eat_back_text sep c k a n =
    let text = a ++ c ∷ separators sep k [] in
    let cut : (a ++ c ∷ []) ++ separators sep k [] ≡ text =
      append_assoc a (c ∷ []) (separators sep k []) in
    let size : length (a ++ c ∷ []) ≡ suc (length a) =
      omega (arith, length-append {0} a (c ∷ [])) in
    ap (eat_back sep text) (
      omega
        (arith, size, length-append {0} a (c ∷ separators sep k []), length-separators sep k []))
    ∙ subst (λ t. eat_back sep t (length (a ++ c ∷ []) + k) ≡ eat_back sep t (length (a ++ c ∷ [])))
        cut (eat_back-separators sep k (a ++ c ∷ []) [])
    ∙ ap (eat_back sep text) size
    ∙ eat_back_here sep c a (separators sep k []) n

take_text : (c : ℕ) (a after : Bytes) → take (suc (length a)) (a ++ c ∷ after) ≡ a ++ c ∷ []
take_text c [] after = refl
take_text c (x ∷ a) after = ap (◌∷◌ x) (take_text c a after)

joins :
    (a b rest : Bytes) (sep alen : ℕ)
    → ltb 0 (length a) ≡ true
    → eat_back sep a (length a) ≡ some alen
    → eat_front sep b ≡ some rest
    → spacecat a b sep true ≡ some (take alen a ++ (sep ∷ rest))
unfolding spacecat
joins a b rest sep alen long back front = rw long (rw back (rw front refl))

joins_nothing :
    (b rest : Bytes) (sep : ℕ)
    → eat_front sep b ≡ some rest
    → spacecat [] b sep true ≡ some (sep ∷ rest)
unfolding spacecat
joins_nothing b rest sep front = rw front refl

joins_outside :
    (a b : Bytes) (sep : ℕ)
    → ltb 0 (length a) ≡ true
    → eat_back sep a (length a) ≡ none
    → spacecat a b sep true ≡ none
unfolding spacecat
joins_outside a b sep long back = rw long (rw back refl)

-- With `onesep`, and a second text that does not begin with the separator but for any number of them (nor is it
-- empty if that is the zero character): a first text that ends in another character and any number of
-- separators is joined to it by one separator; an empty first text puts one separator in front; and of a first text of
-- separators alone, of which there are some, spacecat reads what stands before it.
pub spacecat_lem :
    (sep c j k : ℕ) (a b : Bytes)
    → c ≢ sep
    → StartsOther sep b
    → (spacecat (a ++ c ∷ separators sep k []) (separators sep j b) sep true
        ≡ some (a ++ c ∷ sep ∷ b))
      × (spacecat [] (separators sep j b) sep true ≡ some (sep ∷ b))
      × (spacecat (separators sep (suc k) []) (separators sep j b) sep true ≡ none)
spacecat_lem sep c j k a b n h =
    let front = eat_front-separators sep j b h in
    let size = length-append {0} a (c ∷ separators sep k []) in
    (
      joins (a ++ c ∷ separators sep k []) (separators sep j b) b sep (suc (length a))
            (ground (arith, size)) (eat_back_text sep c k a n) front
          ∙ ap some (
              ap (λ t. t ++ (sep ∷ b)) (take_text c a (separators sep k []))
              ∙ append_assoc a (c ∷ []) (sep ∷ b)),
      joins_nothing (separators sep j b) b sep front,
      joins_outside (separators sep (suc k) []) (separators sep j b) sep (ground arith)
          (eat_back_outside sep (suc k)),
    )
