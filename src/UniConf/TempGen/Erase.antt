-- ===== src/UniConf/TempGen/Erase.antt =====
-- What a lookup finds in a tree from which a subtree was taken.
use wvstreams.Prelude.{
  true, false, Option, none, some, [], ◌∷◌, Bytes, ◌≡◌, refl, sym, ap, ◌∙◌, arith, if◌then◌else◌,
  Bool-cases, Option-cases, inl, inr,
}
use wvstreams.UniConf.Key.{Segment, Key, is_blank}
use wvstreams.UniConf.Key.Paths.{IsPlain}
use wvstreams.UniConf.Tree.{Tree, value, children, same_segment, child, find, and_find, unlink}
use wvstreams.UniConf.Tree.Lookup.{UniqueTree, child-unlink, child_congr, same_segment_symm}
use wvstreams.UniConf.TempGen.{value_of, find_root, delete_at, delete_path}
use wvstreams.UniConf.TempGen.Insert.{above, find_step, find_linked, find_through}
use wvstreams.UniConf.TempGen.Unique.{
  UniqueTree-child, UniqueTree-children, delete_step_none, delete_step_some,
}

-- what a lookup of `j` finds after the subtree at `k` was removed, from what it found before
abbrev pub removed : Key → Key → Option Bytes → Option Bytes
removed k j before = if above k j then none else before

value-delete_root : (s : Segment) (k : Key) (t : Tree) → value (delete_at s k t) ≡ value t
value-delete_root s [] t = unfold delete_at in refl
value-delete_root s (s' ∷ k) t = elim (Option-cases (child s (children t))) [
  | inl e ↦ rw (delete_step_none s s' k t e)
  | inr (u, e) ↦ rw (delete_step_some s s' k t u e)
]

value-find_nil : (t : Tree) → value_of (find [] t) ≡ some (value t)
unfolding find
value-find_nil t = refl

find_missing :
    (s q : Segment) (j : Key) (t : Tree)
    → is_blank q ≡ false
    → same_segment q s ≡ true
    → child s (children t) ≡ none
    → find (q ∷ j) t ≡ none
find_missing s q j t p e h =
    find_step q j t p ∙ ap (and_find (find j)) (child_congr q s (children t) e ∙ h)

children-delete_last :
    (s : Segment) (t : Tree) → children (delete_at s [] t) ≡ unlink s (children t)
unfolding delete_at
children-delete_last s t = refl

value-delete_at :
    (s : Segment) (k j : Key) (t : Tree)
    → IsPlain j
    → UniqueTree t
    → value_of (find j (delete_at s k t)) ≡ removed (s ∷ k) j (value_of (find j t))
value-delete_at s k [] t p h =
    value-find_nil (delete_at s k t) ∙ ap some (value-delete_root s k t) ∙ sym (value-find_nil t)
value-delete_at s [] (q ∷ j) t p h =
    rw
      (
        find_step q j (delete_at s [] t) p.0,
        children-delete_last s t,
        child-unlink s q (children t) (UniqueTree-children t h),
        find_step q j t p.0,
        same_segment_symm q s,
      )
      (elim (Bool-cases (same_segment s q)) [ inl e ↦ rw e | inr e ↦ rw e ])
value-delete_at s (s' ∷ k) (q ∷ j) t p h = elim (Option-cases (child s (children t))) [
  | inl e ↦ rw (delete_step_none s s' k t e) (elim (Bool-cases (same_segment q s)) [
    | inl b ↦
        rw (b, find_missing s q j t p.0 b e)
          (elim (Bool-cases (above (s' ∷ k) j)) [ inl a ↦ rw a | inr a ↦ rw a ])
    | inr b ↦ rw b
  ])
  | inr (u, e) ↦ rw (delete_step_some s s' k t u e) (
      rw (find_linked s q j t (delete_at s' k u) p.0, same_segment_symm q s)
        (elim (Bool-cases (same_segment s q)) [
          | inl b ↦
              rw (b, find_through s q j t p.0 b, e)
                (value-delete_at s' k j u p.1
                  (UniqueTree-child s (children t) u (UniqueTree-children t h) e))
          | inr b ↦ rw b
        ]))
]

-- where nothing stands at a key, nothing stands below it
find_below :
    (k j : Key) (t : Tree)
    → IsPlain k
    → IsPlain j
    → find k t ≡ none
    → above k j ≡ true
    → find j t ≡ none
find_below [] j t p q h a = let bad : some t ≡ none = (unfold find in h) in cc
find_below (s ∷ k) [] t p q h a = cc
find_below (s ∷ k) (r ∷ j) t p q h a = elim (Option-cases (child s (children t))) [
  | inl e ↦ find_missing s r j t q.0 first_same e
  | inr (u, e) ↦
      find_step r j t q.0
      ∙ rw (child_congr r s (children t) first_same, e)
          (find_below k j u p.1 q.1 (sym (find_step s k t p.0 ∙ rw e) ∙ h) rest_above)
]
  where
    first_same : same_segment r s ≡ true
    first_same = ground arith

    rest_above : above k j ≡ true
    rest_above = ground arith

pub value-removed_root :
    (k j : Key) (t : Tree)
    → IsPlain j
    → UniqueTree t
    → value_of (find_root (delete_path k t) j) ≡ removed k j (value_of (find j t))
value-removed_root [] j t p h = refl
value-removed_root (s ∷ k) j t p h = value-delete_at s k j t p h

pub removed_missing :
    (k j : Key) (o : Option Tree)
    → IsPlain k
    → IsPlain j
    → find_root o k ≡ none
    → value_of (find_root o j) ≡ removed k j (value_of (find_root o j))
removed_missing k j none p q h = elim (Bool-cases (above k j)) [ inl a ↦ rw a | inr a ↦ rw a ]
removed_missing k j (some t) p q h = elim (Bool-cases (above k j)) [
  | inl a ↦ rw (a, find_below k j t p q h a)
  | inr a ↦ rw a
]
