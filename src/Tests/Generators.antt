-- ===== src/Tests/Generators.antt =====
-- uniconf/uniconfgen.cc and uniconf/unitempgen.cc at concrete inputs.
use wvstreams.Prelude.{true, ◌>>=◌, Option, some, none, List, [], ◌∷◌, ◌++◌, codes, ◌≡◌, refl}
use wvstreams.Ctype.{tolower}
use wvstreams.UniConf.Key
use wvstreams.UniConf.Key.{Key}
use wvstreams.UniConf.Key.Compare.{strcasecmp}
use wvstreams.UniConf.Gen
use wvstreams.UniConf.Gen.{Delta, new_gen, hold_delta, unhold_delta, delta_all}
use wvstreams.UniConf.Gen.Deltas.{hold-unhold}
use wvstreams.UniConf.Tree
use wvstreams.UniConf.TempGen
use wvstreams.UniConf.TempGen.{new_temp, TempGen, get, set, setv, has_children_at}
use wvstreams.UniConf.TempGen.Insert.{written}
use wvstreams.UniConf.Tree.{node, nil, cons}
use wvstreams.UniConf.Tree.Lookup.{UniqueTree, UniqueForest}
use wvstreams.UniConf.TempGen.Unique.{UniqueRoot}
use wvstreams.UniConf.TempGen.Erase.{removed}
use wvstreams.UniConf.TempGen.Remove.{get-set-none}
use wvstreams.UniConf.TempGen.Values.{get-set, set_twice}

generator_program : Unit {0}
unfolding Gen.dispatch_delta Gen.flush_loop Gen.flush_delta hold_delta unhold_delta Gen.delta
    delta_all Key.nonblank Key.collapse Key.last Key.pop Key.compareto strcasecmp tolower
    Key.same_text Tree.child Tree.label Tree.find Tree.fullkey Tree.put_child Tree.unlink
    Tree.haschildren Tree.visit_tree Tree.visit_forest get TempGen.write_at TempGen.delete_at
    TempGen.remove_subtree TempGen.write_key set setv has_children_at
generator_program = tt

abbrev net : Key
net = codes "net" ∷ []

abbrev address : Key
address = codes "net" ∷ codes "addr" ∷ []

abbrev address_upper : Key
address_upper = codes "NET" ∷ codes "Addr" ∷ []

abbrev two : List Delta
two = (net, some []) ∷ (address, some (codes "10.0.0.1")) ∷ []

abbrev filled : Option TempGen
filled = set address (some (codes "10.0.0.1")) new_temp

filled_news : (filled >>= λ g. some g.gen.dispatched) ≡ some (([], some []) ∷ two)
unfolding generator_program
filled_news = refl

filled-get : (filled >>= λ g. some (get g address_upper)) ≡ some (some (codes "10.0.0.1"))
unfolding generator_program
filled-get = refl

-- every key below the removed one is reported, its own last
removed_news :
    (filled >>= λ g. set (codes "NET" ∷ []) none g >>= λ g'. some g'.gen.dispatched)
    ≡ some (([], some []) ∷ two ++ (address, none) ∷ (net, none) ∷ [])
unfolding generator_program
removed_news = refl

hold-unhold_example :
    (delta_all two (hold_delta new_gen)
      ≡ some (record { hold_nesting = 1; deltas = two; dispatched = [] }))
    × (delta_all two new_gen ≡ some (record { hold_nesting = 0; deltas = []; dispatched = two }))
    × ((delta_all two (hold_delta new_gen) >>= unhold_delta) ≡ delta_all two new_gen)
hold-unhold_example = hold-unhold two new_gen refl refl

get-set_example :
    (set address (some (codes "10.0.0.1")) new_temp >>= λ g. some (get g net))
    ≡ some (written address (codes "10.0.0.1") net (get new_temp net))
get-set_example =
    get-set new_temp address net (codes "10.0.0.1") (refl, refl) (refl, (refl, tt)) (refl, tt)

set_twice_example :
    (set address (some (codes "10.0.0.1")) new_temp >>= set address (some (codes "10.0.0.1")))
    ≡ set address (some (codes "10.0.0.1")) new_temp
set_twice_example = set_twice new_temp address (codes "10.0.0.1") (refl, refl) (refl, (refl, tt))

-- a tree with two keys
abbrev two_keys : TempGen
two_keys = record {
  root =
      some (
        node []
          (cons (codes "net") (node (codes "on") nil) (cons (codes "log") (node [] nil) nil)));
  dirty = true;
  gen = new_gen;
}

two_keys-UniqueRoot : UniqueRoot two_keys.root
unfolding UniqueTree UniqueForest generator_program
two_keys-UniqueRoot = (refl, tt, (refl, tt, tt))

get-set-none_example :
    (set net none two_keys >>= λ g. some (get g (codes "log" ∷ [])))
    ≡ some (removed net (codes "log" ∷ []) (get two_keys (codes "log" ∷ [])))
get-set-none_example =
    get-set-none two_keys net (codes "log" ∷ []) (refl, refl) two_keys-UniqueRoot (refl, tt)
      (refl, tt)
