-- ===== src/UniConf/Key/Text.antt =====
-- Writing a key as text and reading it back.
use wvstreams.Prelude.{
  ℕ, false, [], ◌∷◌, ◌++◌, append_assoc, append-nil, Bytes, All, ◌≡◌, ◌⊎◌, inl, inr, refl, ap, ◌∙◌,
  ◌==◌, if◌then◌else◌, Bool-cases,
}
use wvstreams.UniConf.Key.{
  Segment, Key, is_blank, hastrailingslash, nonblank, split_slash, ends_in_slash, from_text,
  join_text, printable,
}

-- a segment that is not blank and holds no slash
abbrev pub IsName : Segment → Type 0
IsName s = (is_blank s ≡ false) × All (λ c. (c == b'/') ≡ false) s

-- what may follow a first segment: names, of which the last may be the blank of a trailing slash
abbrev pub IsTail : Key → Type 0
IsTail [] = Unit
IsTail (s ∷ []) = IsName s ⊎ (s ≡ [])
IsTail (s ∷ t ∷ k) = IsName s × IsTail (t ∷ k)

-- the keys that the constructors make
abbrev pub IsPath : Key → Type 0
IsPath [] = Unit
IsPath (s ∷ k) = IsName s × IsTail k

abbrev NoSlash : Segment → Type 0
NoSlash s = All (λ c. (c == b'/') ≡ false) s

split_slash_step :
    (c : ℕ) (cs acc : Bytes)
    → (c == b'/') ≡ false
    → split_slash (c ∷ cs) acc ≡ split_slash cs (acc ++ c ∷ [])
unfolding split_slash
split_slash_step c cs acc h = rw (h, split_slash)

-- what the text splits into behind a segment with no slash
split_slash-NoSlash :
    (s acc : Segment) (rest : Bytes)
    → NoSlash s
    → split_slash (s ++ b'/' ∷ rest) acc ≡ (acc ++ s) ∷ split_slash rest []
split_slash-NoSlash [] acc rest h = unfold split_slash in rw append-nil
split_slash-NoSlash (c ∷ s) acc rest h =
    split_slash_step c (s ++ b'/' ∷ rest) acc h.0
    ∙ split_slash-NoSlash s (acc ++ c ∷ []) rest h.1
    ∙ rw append_assoc

split_slash_end : (s acc : Segment) → NoSlash s → split_slash s acc ≡ (acc ++ s) ∷ []
split_slash_end [] acc h = unfold split_slash in rw append-nil
split_slash_end (c ∷ s) acc h =
    split_slash_step c s acc h.0 ∙ split_slash_end s (acc ++ c ∷ []) h.1 ∙ rw append_assoc

split_slash-join_text :
    (s : Segment) (k : Key) → All NoSlash (s ∷ k) → split_slash (join_text (s ∷ k)) [] ≡ s ∷ k
unfolding join_text
split_slash-join_text s [] h = split_slash_end s [] h.0
split_slash-join_text s (t ∷ k) h =
    split_slash-NoSlash s [] (join_text (t ∷ k)) h.0 ∙ ap (◌∷◌ s) (split_slash-join_text t k h.1)

ends_in_slash-append :
    (s : Bytes) (c : ℕ) (cs : Bytes) → ends_in_slash (s ++ c ∷ cs) ≡ ends_in_slash (c ∷ cs)
ends_in_slash-append [] c cs = refl
ends_in_slash-append (d ∷ []) c cs = refl
ends_in_slash-append (d ∷ e ∷ s) c cs = ends_in_slash-append (e ∷ s) c cs

ends_in_slash-NoSlash : (s : Bytes) → NoSlash s → ends_in_slash s ≡ false
ends_in_slash-NoSlash [] h = refl
ends_in_slash-NoSlash (c ∷ []) h = h.0
ends_in_slash-NoSlash (c ∷ d ∷ s) h = ends_in_slash-NoSlash (d ∷ s) h.1

NoSlash-IsTail : (k : Key) → IsTail k → All NoSlash k
NoSlash-IsTail [] h = tt
NoSlash-IsTail (s ∷ []) (inl h) = (h.1, tt)
NoSlash-IsTail (s ∷ []) (inr h) = (rw h tt, tt)
NoSlash-IsTail (s ∷ t ∷ k) h = (h.0.1, NoSlash-IsTail (t ∷ k) h.1)

ends_in_slash-tail :
    (t : Segment) (k : Key)
    → IsTail (t ∷ k)
    → ends_in_slash (b'/' ∷ join_text (t ∷ k)) ≡ hastrailingslash (t ∷ k)
unfolding join_text hastrailingslash
ends_in_slash-tail [] [] h = refl
ends_in_slash-tail (c ∷ cs) [] (inl h) = ends_in_slash-NoSlash (c ∷ cs) h.1
ends_in_slash-tail (c ∷ cs) [] (inr h) = cc
ends_in_slash-tail t (u ∷ k) h =
    ends_in_slash-append (b'/' ∷ t) b'/' (join_text (u ∷ k)) ∙ ends_in_slash-tail u k h.1

ends_in_slash-path :
    (s t : Segment) (k : Key)
    → IsTail (t ∷ k)
    → ends_in_slash (join_text (s ∷ t ∷ k)) ≡ hastrailingslash (t ∷ k)
unfolding join_text
ends_in_slash-path s t k h =
    ends_in_slash-append s b'/' (join_text (t ∷ k)) ∙ ends_in_slash-tail t k h

nonblank-tail :
    (k : Key) → IsTail k → nonblank k ++ (if hastrailingslash k then [] ∷ [] else []) ≡ k
unfolding nonblank hastrailingslash
nonblank-tail [] h = refl
nonblank-tail (s ∷ []) (inl h) = rw h.0
nonblank-tail (s ∷ []) (inr h) = rw h
nonblank-tail (s ∷ t ∷ k) h = rw h.0.0 (ap (◌∷◌ s) (nonblank-tail (t ∷ k) h.1))

from_text_parts :
    (text : Bytes) (s : Segment) (k : Key)
    → split_slash text [] ≡ s ∷ k
    → is_blank s ≡ false
    → from_text text ≡ s ∷ (nonblank k ++ (if ends_in_slash text then [] ∷ [] else []))
unfolding from_text nonblank
from_text_parts text s k h b =
    rw (h, nonblank)
      (rw b (elim (Bool-cases (ends_in_slash text)) [ inl e ↦ rw e | inr e ↦ rw (e, append-nil) ]))

-- Reading the printed form of a key gives the key back, the trailing slash included (the class
-- documentation says that trailing slashes are discarded), if its segments are not blank and hold
-- no slash; only the last of several may be blank.
pub from_text-printable : (k : Key) → IsPath k → from_text (printable k) ≡ k
unfolding printable
from_text-printable [] h = unfold join_text from_text split_slash nonblank in refl
from_text-printable (s ∷ []) h =
    from_text_parts (join_text (s ∷ [])) s [] (split_slash-join_text s [] (h.0.1, tt)) h.0.0
    ∙ unfold join_text nonblank in rw (ends_in_slash-NoSlash s h.0.1)
from_text-printable (s ∷ t ∷ k) h =
    from_text_parts (join_text (s ∷ t ∷ k)) s (t ∷ k)
      (split_slash-join_text s (t ∷ k) (h.0.1, NoSlash-IsTail (t ∷ k) h.1)) h.0.0
    ∙ ap (◌∷◌ s) (rw (ends_in_slash-path s t k h.1) (nonblank-tail (t ∷ k) h.1))
