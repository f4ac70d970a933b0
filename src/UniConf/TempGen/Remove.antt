-- ===== src/UniConf/TempGen/Remove.antt =====
-- What a generator answers after a subtree was removed.
use wvstreams.Prelude.{
  ◌>>=◌, ℕ, suc, true, Option, none, some, [], ◌++◌, map, ◌≡◌, refl, ap, ◌∙◌, arith, Option-cases,
  inl, inr,
}
use wvstreams.UniConf.Key.{Key, nonblank}
use wvstreams.UniConf.Key.Paths.{IsPlain, nonblank-IsPlain}
use wvstreams.UniConf.Gen.{Gen, hold_delta, unhold_delta, delta_all}
use wvstreams.UniConf.Gen.Deltas.{delta_all_held, unhold_outermost, hold-unhold, hold-unhold_nested}
use wvstreams.UniConf.Tree.{Tree, find, fullkey, visit_tree}
use wvstreams.UniConf.Tree.Lookup.{UniqueTree}
use wvstreams.UniConf.TempGen.{
  TempGen, find_root, delete_path, remove_key, gone, get, set, remove_subtree,
}
use wvstreams.UniConf.TempGen.Unique.{UniqueRoot}
use wvstreams.UniConf.TempGen.Values.{IsIdle, ends_blank-IsPlain}
use wvstreams.UniConf.TempGen.Erase.{removed, value-removed_root, removed_missing}

unhold-hold : (g : Gen) → g.hold_nesting ≡ 0 → g.deltas ≡ [] → unhold_delta (hold_delta g) ≡ some g
unfolding delta_all
unhold-hold g h e = (hold-unhold [] g h e).2

remove_key_missing :
    (k : Key) (o : Option Tree) (g : TempGen) → find_root o k ≡ none → remove_key k o g ≡ some g
remove_key_missing k none g h = refl
remove_key_missing k (some t) g h = rw h

set-none-missing :
    (g : TempGen) (k : Key)
    → IsIdle g
    → IsPlain k
    → find_root g.root k ≡ none
    → set k none g ≡ some g
unfolding set
set-none-missing g k i p h = rw (ends_blank-IsPlain k p) (
    rw (remove_key_missing k g.root (record g { gen = hold_delta g.gen }) h)
      (rw (unhold-hold g.gen i.0 i.1)))

bind_assoc {ℓ κ μ} :
    {A : Type ℓ} {B : Type κ} {C : Type μ} (o : Option A) (f : A → Option B) (h : B → Option C)
    → (o >>= λ a. f a >>= h) ≡ (o >>= f >>= h)
bind_assoc none f h = refl
bind_assoc (some a) f h = refl

-- inside a hold the notifications of a removal are queued
remove_subtree-held :
    (k : Key) (t found : Tree) (g : TempGen) (n : ℕ)
    → g.gen.hold_nesting ≡ suc n
    → remove_subtree k t found g
      ≡ some (record {
        root = delete_path (nonblank k) t;
        dirty = true;
        gen = record g.gen { deltas = g.gen.deltas ++ map gone (visit_tree (fullkey k t) found) };
      })
unfolding remove_subtree
remove_subtree-held k t found g n h =
    let ds = map gone (visit_tree (fullkey k t) found) in
    bind_assoc (delta_all ds (hold_delta g.gen)) unhold_delta
      (λ freed. some (record { root = delete_path (nonblank k) t; dirty = true; gen = freed }))
    ∙ rw (hold-unhold_nested ds g.gen n h, delta_all_held ds g.gen n h)

set-none-found :
    (g : TempGen) (k : Key) (t found : Tree)
    → IsIdle g
    → IsPlain k
    → g.root ≡ some t
    → find k t ≡ some found
    → set k none g
      ≡ some (record {
        root = delete_path k t;
        dirty = true;
        gen = record g.gen {
          dispatched = g.gen.dispatched ++ map gone (visit_tree (fullkey k t) found);
        };
      })
unfolding set
set-none-found g k t found i p r h =
    let ds = map gone (visit_tree (fullkey k t) found) in
    rw (ends_blank-IsPlain k p, r, h)
      (rw
        (
          remove_subtree-held k t found
              (record { root = some t; dirty = g.dirty; gen = hold_delta g.gen }) g.gen.hold_nesting
              (unfold hold_delta in refl),
          nonblank-IsPlain k p,
        )
        (rw (unhold_outermost ds g.gen i.0 i.1) refl))

found_root :
    (o : Option Tree) (k : Key) (found : Tree)
    → find_root o k ≡ some found
    → (t : Tree) × (o ≡ some t) × (find k t ≡ some found)
found_root none k found h = cc
found_root (some t) k found h = (t, refl, h)

UniqueRoot-some : (o : Option Tree) (t : Tree) → o ≡ some t → UniqueRoot o → UniqueTree t
UniqueRoot-some none t e h = cc
UniqueRoot-some (some u) t e h = let same : u ≡ t = ground arith in rw (← same) h

-- At a key with no blank segment (so with no trailing slash), `set` with a null value succeeds, if
-- notifications are not held back and no two children of a node have the same key, and `get` at a
-- key with no blank segment then finds nothing at the removed key and below it, and everywhere
-- else what it found before, whether anything stood at the key or not.
pub get-set-none :
    (g : TempGen) (k j : Key)
    → IsIdle g
    → UniqueRoot g.root
    → IsPlain k
    → IsPlain j
    → (set k none g >>= λ g'. some (get g' j)) ≡ some (removed k j (get g j))
unfolding get
get-set-none g k j i u p q = elim (Option-cases (find_root g.root k)) [
  | inl e ↦
      rw (set-none-missing g k i p e, ends_blank-IsPlain j q)
        (ap some (removed_missing k j g.root p q e))
  | inr (found, e) ↦
      let (t, r, h) = found_root g.root k found e in
      rw (set-none-found g k t found i p r h, ends_blank-IsPlain j q, r)
        (ap some (value-removed_root k j t q (UniqueRoot-some g.root t r u)))
]
