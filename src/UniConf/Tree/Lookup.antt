-- ===== src/UniConf/Tree/Lookup.antt =====
-- What is found in a forest that was changed.
use wvstreams.Prelude.{
  true, none, some, ◌≡◌, refl, sym, ◌∙◌, arith, if◌then◌else◌, Bool-cases, inl, inr,
}
use wvstreams.UniConf.Key.{Segment}
use wvstreams.UniConf.Key.Order.{strcasecmp-same_left, strcasecmp-flip}
use wvstreams.UniConf.Tree.{Tree, node, Forest, nil, cons, same_segment, child, put_child, unlink}

pub same_segment_symm : (s t : Segment) → same_segment s t ≡ same_segment t s
same_segment_symm s t = ground (arith, strcasecmp-flip s t)

pub same_segment_congr :
    (s t u : Segment) → same_segment s t ≡ true → same_segment s u ≡ same_segment t u
same_segment_congr s t u h = ground (arith, strcasecmp-same_left s t u)

pub same_segment_refl : (s : Segment) → same_segment s s ≡ true
same_segment_refl s = ground (arith, strcasecmp-flip s s)

pub child-put_child :
    (s q : Segment) (t : Tree) (f : Forest)
    → child q (put_child s t f) ≡ (if same_segment s q then some t else child q f)
unfolding child put_child
child-put_child s q t nil = refl
child-put_child s q t (cons l u f) = elim (Bool-cases (same_segment l s)) [
  | inl e ↦ rw e (rw (same_segment_congr l s q e) (ground arith))
  | inr e ↦
      rw (e, child)
        (rw (child-put_child s q t f) (
          ground (
            arith,
            e,
            same_segment_congr l q s,
            same_segment_congr q l s,
            same_segment_symm l q,
            same_segment_symm s q,
          )))
]

-- No two children of any node have the same key.
unfoldable mutual
  pub UniqueTree : Tree → Type 0
  UniqueTree (node v f) = UniqueForest f

  pub UniqueForest : Forest → Type 0
  UniqueForest nil = Unit
  UniqueForest (cons l t f) = (child l f ≡ none) × UniqueTree t × UniqueForest f

pub child_congr : (s q : Segment) (f : Forest) → same_segment s q ≡ true → child s f ≡ child q f
unfolding child
child_congr s q nil h = refl
child_congr s q (cons l t f) h = ground (
  arith,
  child_congr s q f,
  same_segment_congr s q l,
  same_segment_symm l s,
  same_segment_symm l q,
)

pub child-unlink :
    (s q : Segment) (f : Forest)
    → UniqueForest f
    → child q (unlink s f) ≡ (if same_segment s q then none else child q f)
unfolding child unlink UniqueForest
child-unlink s q nil h = ground arith
child-unlink s q (cons l t f) h = elim (Bool-cases (same_segment l s)) [
  | inl e ↦ rw e (
      rw (← same_segment_congr l s q e) (elim (Bool-cases (same_segment l q)) [
        | inl e' ↦ rw e' (sym (child_congr l q f e') ∙ h.0)
        | inr e' ↦ rw e'
      ]))
  | inr e ↦
      rw (e, child)
        (rw (child-unlink s q f h.2) (
          ground
            (arith, e, same_segment_congr q l s, same_segment_symm l q, same_segment_symm s q)))
]
