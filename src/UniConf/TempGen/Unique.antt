-- ===== src/UniConf/TempGen/Unique.antt =====
-- No two children of a node have the same key, after any `set`.
use wvstreams.Prelude.{
  Option, none, some, [], ◌∷◌, ◌++◌, Bytes, ◌≡◌, refl, ◌∙◌, arith, Bool-cases, Option-cases, inl,
  inr,
}
use wvstreams.UniConf.Key.{Segment, Key, same_text}
use wvstreams.UniConf.Key.Paths.{IsPlain}
use wvstreams.UniConf.Tree.{
  Tree, node, Forest, nil, cons, value, children, same_segment, child, label, put_child, unlink,
}
use wvstreams.UniConf.Tree.Lookup.{
  UniqueTree, UniqueForest, child-put_child, child-unlink, same_segment_symm,
}
use wvstreams.UniConf.TempGen.{write_at, delete_at}
use wvstreams.UniConf.TempGen.Insert.{write_step_none, write_step_some}

pub UniqueTree-child :
    (s : Segment) (f : Forest) (u : Tree) → UniqueForest f → child s f ≡ some u → UniqueTree u
unfolding child UniqueForest
UniqueTree-child s nil u h e = cc
UniqueTree-child s (cons l t f) u h e = elim (Bool-cases (same_segment l s)) [
  | inl b ↦ let found : t ≡ u = ground arith in rw (← found) h.1
  | inr b ↦ UniqueTree-child s f u h.2 (ground arith)
]

UniqueForest-put_child :
    (s : Segment) (t : Tree) (f : Forest)
    → UniqueTree t
    → UniqueForest f
    → UniqueForest (put_child s t f)
unfolding put_child UniqueForest
UniqueForest-put_child s t nil ht h = (unfold child in refl, ht, tt)
UniqueForest-put_child s t (cons l u f) ht h = elim (Bool-cases (same_segment l s)) [
  | inl e ↦ rw e (h.0, ht, h.2)
  | inr e ↦ rw e (
    (child-put_child s l t f ∙ rw (same_segment_symm s l, e) h.0),
    h.1,
    UniqueForest-put_child s t f ht h.2,
  )
]

UniqueForest-unlink : (s : Segment) (f : Forest) → UniqueForest f → UniqueForest (unlink s f)
unfolding unlink UniqueForest
UniqueForest-unlink s nil h = tt
UniqueForest-unlink s (cons l u f) h = elim (Bool-cases (same_segment l s)) [
  | inl e ↦ rw e h.2
  | inr e ↦ rw e (
    (child-unlink s l f h.2 ∙ rw (same_segment_symm s l, e) h.0),
    h.1,
    UniqueForest-unlink s f h.2,
  )
]

pub UniqueTree-children : (t : Tree) → UniqueTree t → UniqueForest (children t)
unfolding UniqueTree
UniqueTree-children (node v f) h = h

abbrev pub UniqueRoot : Option Tree → Type 0
UniqueRoot none = Unit
UniqueRoot (some t) = UniqueTree t

UniqueRoot-child : (s : Segment) (t : Tree) → UniqueTree t → UniqueRoot (child s (children t))
UniqueRoot-child s t h = elim (Option-cases (child s (children t))) [
  | inl e ↦ rw e tt
  | inr (u, e) ↦ rw e (UniqueTree-child s (children t) u (UniqueTree-children t h) e)
]

relinked_unique :
    (s : Segment) (t b : Tree)
    → UniqueTree t
    → UniqueTree b
    → UniqueTree (node (value t) (put_child s b (children t)))
unfolding UniqueTree
relinked_unique s t b h hb = UniqueForest-put_child s b (children t) hb (UniqueTree-children t h)

pub UniqueTree-write_at :
    (k full : Key) (v : Bytes) (o : Option Tree)
    → IsPlain k
    → UniqueRoot o
    → UniqueTree (write_at full k v o).tree
UniqueTree-write_at [] full v none p h = unfold write_at UniqueTree UniqueForest in tt
UniqueTree-write_at [] full v (some (node w f)) p h =
    unfold write_at UniqueTree in
    elim (Bool-cases (same_text v w)) [ inl e ↦ rw e h | inr e ↦ rw e h ]
UniqueTree-write_at (s ∷ k) full v none p h = rw (write_step_none full s k v p.0) (
    relinked_unique s (node [] nil) (write_at (full ++ s ∷ []) k v none).tree
      (unfold UniqueTree UniqueForest in tt) (UniqueTree-write_at k (full ++ s ∷ []) v none p.1 tt))
UniqueTree-write_at (s ∷ k) full v (some t) p h =
    let name = full ++ label s (children t) ∷ [] in
    rw (write_step_some full s k v t p.0) (
      relinked_unique s t (write_at name k v (child s (children t))).tree h
        (UniqueTree-write_at k name v (child s (children t)) p.1 (UniqueRoot-child s t h)))

pub delete_step_none :
    (s s' : Segment) (k : Key) (t : Tree) → child s (children t) ≡ none → delete_at s (s' ∷ k) t ≡ t
unfolding delete_at
delete_step_none s s' k t h = rw h

pub delete_step_some :
    (s s' : Segment) (k : Key) (t u : Tree)
    → child s (children t) ≡ some u
    → delete_at s (s' ∷ k) t ≡ node (value t) (put_child s (delete_at s' k u) (children t))
unfolding delete_at
delete_step_some s s' k t u h = rw h

pub UniqueTree-delete_at :
    (s : Segment) (k : Key) (t : Tree) → UniqueTree t → UniqueTree (delete_at s k t)
UniqueTree-delete_at s [] t h =
    unfold delete_at UniqueTree in UniqueForest-unlink s (children t) (UniqueTree-children t h)
UniqueTree-delete_at s (s' ∷ k) t h = elim (Option-cases (child s (children t))) [
  | inl e ↦ rw (delete_step_none s s' k t e) h
  | inr (u, e) ↦ rw (delete_step_some s s' k t u e) (
      relinked_unique s t (delete_at s' k u) h (
        UniqueTree-delete_at s' k u
          (UniqueTree-child s (children t) u (UniqueTree-children t h) e)))
]
