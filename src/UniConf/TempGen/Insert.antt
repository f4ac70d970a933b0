-- ===== src/UniConf/TempGen/Insert.antt =====
-- What the tree holds after a value was written.
use wvstreams.Prelude.{
  Bool, true, false, ◌&&◌, Option, none, some, [], ◌∷◌, ◌++◌, Bytes, ◌≡◌, refl, sym, ap, ◌∙◌, arith,
  if◌then◌else◌, Bool-cases, inl, inr,
}
use wvstreams.UniConf.Key.{Segment, Key, is_blank, compareto, same_key, same_text}
use wvstreams.UniConf.Key.Paths.{IsPlain}
use wvstreams.UniConf.Tree.{
  Tree, node, nil, value, children, same_segment, child, label, find, and_find, put_child,
}
use wvstreams.UniConf.Tree.Lookup.{child-put_child, child_congr}
use wvstreams.UniConf.TempGen.{value_of, find_root, linked, vivified, write_at}

-- the first key is the second or a key above it
abbrev pub above : Key → Key → Bool
above [] k = true
above (s ∷ j) [] = false
above (s ∷ j) (t ∷ k) = same_segment t s && above j k

abbrev pub or_blank : Option Bytes → Bytes
or_blank none = []
or_blank (some v) = v

-- what a lookup of `j` finds after `v` was written at `k`, from what it found before
abbrev pub written : Key → Bytes → Key → Option Bytes → Option Bytes
written k v j before =
    if same_key k j then some v else if above j k then some (or_blank before) else before

same_text-eq : (v w : Bytes) → same_text v w ≡ true → v ≡ w
unfolding same_text
same_text-eq [] [] h = refl
same_text-eq [] (d ∷ w) h = cc
same_text-eq (c ∷ v) [] h = cc
same_text-eq (c ∷ v) (d ∷ w) h = ground (arith, same_text-eq v w)

pub find_step :
    (s : Segment) (k : Key) (t : Tree)
    → is_blank s ≡ false
    → find (s ∷ k) t ≡ and_find (find k) (child s (children t))
unfolding find
find_step s k t h = rw (h, find)

same_key-cons :
    (s t : Segment) (k j : Key) → same_key (s ∷ k) (t ∷ j) ≡ (same_segment s t && same_key k j)
unfolding compareto
same_key-cons s t k j = ground arith

pub write_step_none :
    (full : Key) (s : Segment) (k : Key) (v : Bytes)
    → is_blank s ≡ false
    → write_at full (s ∷ k) v none
      ≡ vivified full (linked s (node [] nil) (write_at (full ++ s ∷ []) k v none))
unfolding write_at
write_step_none full s k v h = rw (h, write_at)

pub write_step_some :
    (full : Key) (s : Segment) (k : Key) (v : Bytes) (t : Tree)
    → is_blank s ≡ false
    → write_at full (s ∷ k) v (some t)
      ≡ linked s t (write_at (full ++ label s (children t) ∷ []) k v (child s (children t)))
unfolding write_at
write_step_some full s k v t h = rw (h, write_at)

-- the lookup goes through the child that was linked in, or past it
pub find_linked :
    (s q : Segment) (j : Key) (t b : Tree)
    → is_blank q ≡ false
    → find (q ∷ j) (node (value t) (put_child s b (children t)))
      ≡ (if same_segment s q then find j b else find (q ∷ j) t)
find_linked s q j t b h =
    find_step q j (node (value t) (put_child s b (children t))) h
    ∙ rw (child-put_child s q b (children t), find_step q j t h)
        (elim (Bool-cases (same_segment s q)) [ inl e ↦ rw e | inr e ↦ rw e ])

find_fresh : (t : Segment) (j : Key) → is_blank t ≡ false → find (t ∷ j) (node [] nil) ≡ none
find_fresh t j h = find_step t j (node [] nil) h ∙ unfold child in refl

find_root-and_find : (o : Option Tree) (j : Key) → and_find (find j) o ≡ find_root o j
find_root-and_find none j = refl
find_root-and_find (some t) j = refl

pub find_through :
    (s t : Segment) (j : Key) (u : Tree)
    → is_blank t ≡ false
    → same_segment s t ≡ true
    → find (t ∷ j) u ≡ find_root (child s (children u)) j
find_through s t j u h e =
    find_step t j u h
    ∙ ap (and_find (find j)) (sym (child_congr s t (children u) e))
    ∙ find_root-and_find (child s (children u)) j

pub value-write_at :
    (k j full : Key) (v : Bytes) (o : Option Tree)
    → IsPlain k
    → IsPlain j
    → value_of (find j (write_at full k v o).tree) ≡ written k v j (value_of (find_root o j))
value-write_at [] [] full v none p q = unfold write_at find compareto in refl
value-write_at [] [] full v (some (node w f)) p q =
    unfold write_at find compareto in ground (arith, same_text-eq v w)
value-write_at [] (t ∷ j) full v none p q =
    unfold write_at compareto child in rw (find_step t j (node v nil) q.0)
value-write_at [] (t ∷ j) full v (some (node w f)) p q =
    unfold write_at compareto in
    elim (Bool-cases (same_text v w)) [
      | inl e ↦ rw e
      | inr e ↦ rw e (rw (find_step t j (node v f) q.0, find_step t j (node w f) q.0))
    ]
value-write_at (s ∷ k) [] full v none p q =
    rw (write_step_none full s k v p.0) (unfold find compareto in refl)
value-write_at (s ∷ k) [] full v (some u) p q =
    rw (write_step_some full s k v u p.0) (unfold find compareto in refl)
value-write_at (s ∷ k) (t ∷ j) full v none p q = rw (write_step_none full s k v p.0) (
    rw
      (
        find_linked s t j (node [] nil) (write_at (full ++ s ∷ []) k v none).tree q.0,
        same_key-cons s t k j,
      )
      (elim (Bool-cases (same_segment s t)) [
        | inl e ↦ rw e (value-write_at k j (full ++ s ∷ []) v none p.1 q.1)
        | inr e ↦ rw e (ap value_of (find_fresh t j q.0))
      ]))
value-write_at (s ∷ k) (t ∷ j) full v (some u) p q = rw (write_step_some full s k v u p.0) (
    rw
      (
        find_linked s t j u
            (write_at (full ++ label s (children u) ∷ []) k v (child s (children u))).tree q.0,
        same_key-cons s t k j,
      )
      (elim (Bool-cases (same_segment s t)) [
        | inl e ↦
            rw (e, find_through s t j u q.0 e)
              (value-write_at k j (full ++ label s (children u) ∷ []) v (child s (children u)) p.1
                q.1)
        | inr e ↦ rw e
      ]))
