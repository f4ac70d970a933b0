-- ===== src/UniConf/TempGen/Values.antt =====
-- What a generator answers after `set`.
use native.Mathlib.Numerals.{unary_clauses}
use wvstreams.Prelude.{
  ◌>>=◌, true, false, ◌||◌, Option, none, some, [], ◌∷◌, ◌++◌, append-nil, Bytes, length, drop, ◌≡◌,
  refl, ap, ◌∙◌, arith, Bool-cases, inl, inr,
}
use wvstreams.UniConf.Key.{Segment, Key, is_blank, isempty, collapse, last, same_text}
use wvstreams.UniConf.Key.Paths.{IsPlain}
use wvstreams.UniConf.Gen.{hold_delta}
use wvstreams.UniConf.Gen.Deltas.{delta_all_held, unhold_outermost}
use wvstreams.UniConf.Tree.{
  Tree, node, Forest, nil, cons, value, children, same_segment, child, label, put_child,
}
use wvstreams.UniConf.Tree.Lookup.{same_segment_refl, child-put_child}
use wvstreams.UniConf.TempGen.{TempGen, ends_blank, get, Written, write_at, write_key, set}
use wvstreams.UniConf.TempGen.Insert.{written, value-write_at, write_step_some, write_step_none}

drop_last :
    (s : Segment) (k : Key)
    → IsPlain (s ∷ k)
    → (isempty (collapse (drop (length k) (s ∷ k)))) ≡ false
unfolding collapse
drop_last s [] h = rw h.0
drop_last s (t ∷ k) h = drop_last t k h.1

pub ends_blank-IsPlain : (k : Key) → IsPlain k → ends_blank k ≡ false
unfolding last
ends_blank-IsPlain [] h = refl
ends_blank-IsPlain (s ∷ k) h = simp unary_clauses (drop_last s k h)

-- a state in which no one holds notifications back
abbrev pub IsIdle : TempGen → Type 0
IsIdle g = (g.gen.hold_nesting ≡ 0) × (g.gen.deltas ≡ [])

abbrev pub stored : TempGen → Written → TempGen
stored g w = record {
  root = some w.tree;
  dirty = g.dirty || w.changed;
  gen = record g.gen { dispatched = g.gen.dispatched ++ w.news };
}

pub set-stored :
    (g : TempGen) (k : Key) (v : Bytes)
    → IsIdle g
    → IsPlain k
    → set k (some v) g ≡ some (stored g (write_at [] k v g.root))
unfolding set write_key hold_delta
set-stored g k v i p = rw (ends_blank-IsPlain k p) (
    let w = write_at [] k v g.root in
    rw (delta_all_held w.news (hold_delta g.gen) g.gen.hold_nesting (unfold hold_delta in refl))
      (rw (unhold_outermost w.news g.gen i.0 i.1) refl))

-- `set` with a value succeeds at a key with no trailing slash, if notifications are not held back, and
-- `get` then finds: the value at that key, in whatever case it is spelled; a value at every key above
-- it, blank if there was none; and everywhere else what it found before.
pub get-set :
    (g : TempGen) (k j : Key) (v : Bytes)
    → IsIdle g
    → IsPlain k
    → IsPlain j
    → (set k (some v) g >>= λ g'. some (get g' j)) ≡ some (written k v j (get g j))
unfolding get
get-set g k j v i p q =
    rw (set-stored g k v i p, ends_blank-IsPlain j q) (ap some (value-write_at k j [] v g.root p q))

put_child_twice :
    (s : Segment) (t u : Tree) (f : Forest) → put_child s t (put_child s u f) ≡ put_child s t f
unfolding put_child
put_child_twice s t u nil = rw (same_segment_refl s)
put_child_twice s t u (cons l w f) = elim (Bool-cases (same_segment l s)) [
  | inl e ↦ rw e (rw e)
  | inr e ↦ rw e (rw (e, put_child_twice s t u f))
]

same_text_refl : (v : Bytes) → same_text v v ≡ true
unfolding same_text
same_text_refl [] = refl
same_text_refl (c ∷ v) = ground (arith, same_text_refl v)

abbrev idle : Tree → Written
idle t = record { tree = t; changed = false; news = [] }

-- through a child that is there, a pass that does nothing does nothing
idle_linked :
    (full : Key) (s : Segment) (k : Key) (v : Bytes) (t b : Tree)
    → is_blank s ≡ false
    → ((full' : Key) → write_at full' k v (some b) ≡ idle b)
    → write_at full (s ∷ k) v (some (node (value t) (put_child s b (children t))))
      ≡ idle (node (value t) (put_child s b (children t)))
idle_linked full s k v t b h same =
    write_step_some full s k v (node (value t) (put_child s b (children t))) h
    ∙ rw (child-put_child s s b (children t), same_segment_refl s)
        (rw (
          same (full ++ label s (put_child s b (children t)) ∷ []),
          put_child_twice s b b (children t),
        ))

write_at_twice :
    (k full full' : Key) (v : Bytes) (o : Option Tree)
    → IsPlain k
    → write_at full' k v (some (write_at full k v o).tree) ≡ idle (write_at full k v o).tree
write_at_twice [] full full' v none p = unfold write_at in rw (same_text_refl v)
write_at_twice [] full full' v (some (node w f)) p =
    unfold write_at in
    elim (Bool-cases (same_text v w)) [ inl e ↦ rw e (rw e) | inr e ↦ rw e (rw (same_text_refl v)) ]
write_at_twice (s ∷ k) full full' v none p = rw (write_step_none full s k v p.0) (
    idle_linked full' s k v (node [] nil) (write_at (full ++ s ∷ []) k v none).tree p.0
      (λ f. write_at_twice k (full ++ s ∷ []) f v none p.1))
write_at_twice (s ∷ k) full full' v (some u) p =
    let name = full ++ label s (children u) ∷ [] in
    rw (write_step_some full s k v u p.0) (
      idle_linked full' s k v u (write_at name k v (child s (children u))).tree p.0
        (λ f. write_at_twice k name f v (child s (children u)) p.1))

-- If notifications are not held back and none are queued, setting a value a second time at a key
-- with no blank segment (so with no trailing slash) changes nothing and notifies no one: the state
-- is that after the first time, the notifications passed on included.
pub set_twice :
    (g : TempGen) (k : Key) (v : Bytes)
    → IsIdle g
    → IsPlain k
    → (set k (some v) g >>= set k (some v)) ≡ set k (some v) g
set_twice g k v i p =
    let w = write_at [] k v g.root in
    rw (set-stored g k v i p) (
      set-stored (stored g w) k v i p
      ∙ rw (write_at_twice k [] [] v g.root p)
          (rw (append-nil (g.gen.dispatched ++ w.news)) (ground arith)))
