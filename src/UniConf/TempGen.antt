-- ===== src/UniConf/TempGen.antt =====
-- uniconf/unitempgen.cc: the generator that keeps its keys in memory. The string cache that `set`
-- passes the value through returns an equal string. `none` is a failed assertion.
pub mod Insert
pub mod Unique
pub mod Values
pub mod Erase
pub mod Remove
use wvstreams.Prelude.{
  ◌>>=◌, ℕ, ◌-◌, Bool, true, false, not, ◌&&◌, ◌||◌, Option, none, some, List, [], ◌∷◌, ◌++◌, map,
  Bytes, length, if◌then◌else◌, ◌==◌,
}
use wvstreams.UniConf.Key.{
  Segment, Key, is_blank, isempty, nonblank, last, pop, numsegments, same_text,
}
use wvstreams.UniConf.Gen.{Delta, Gen, new_gen, hold_delta, unhold_delta, delta_all}
use wvstreams.UniConf.Tree.{
  Tree, node, Forest, nil, cons, value, children, child, label, find, fullkey, put_child, unlink,
  haschildren, visit_tree,
}

pub record TempGen : Type 0 where
  pub root : Option Tree
  pub dirty : Bool
  pub gen : Gen

abbrev pub new_temp : TempGen
new_temp = record { root = none; dirty = false; gen = new_gen }

abbrev pub value_of : Option Tree → Option Bytes
value_of none = none
value_of (some t) = some (value t)

abbrev pub find_root : Option Tree → Key → Option Tree
find_root none key = none
find_root (some t) key = find key t

abbrev pub ends_blank : Key → Bool
ends_blank key = not (isempty key) && isempty (last 1 key)

unfoldable pub get : TempGen → Key → Option Bytes
get g key = if ends_blank key then none else value_of (find_root g.root key)

-- what one pass over a key did to a node: the node, whether anything changed, and the notifications
pub record Written : Type 0 where
  pub tree : Tree
  pub changed : Bool
  pub news : List Delta

-- the last node of the key: changed only if the value differs
abbrev pub set_value : Key → Bytes → Tree → Written
set_value full v (node w f) =
    if same_text v w
    then record { tree = node w f; changed = false; news = [] }
    else record { tree = node v f; changed = true; news = (full, some v) ∷ [] }

-- a node that was not there: ADDED at the end of the key, and AUTO-VIVIFIED above it
abbrev pub new_node : Key → Bytes → Written
new_node full v = record { tree = node v nil; changed = true; news = (full, some v) ∷ [] }

abbrev pub linked : Segment → Tree → Written → Written
linked s t below = record below { tree = node (value t) (put_child s below.tree (children t)) }

abbrev pub vivified : Key → Written → Written
vivified full w = record { tree = w.tree; changed = true; news = (full, some []) ∷ w.news }

-- The loop of `set` over the key, from a node that is there or not, at the path `full`. One round
-- makes a node or steps to the child.
unfoldable pub write_at : Key → Key → Bytes → Option Tree → Written
write_at full [] v none = new_node full v
write_at full [] v (some t) = set_value full v t
write_at full (s ∷ k) v none = elim (is_blank s) [
  | true ↦ vivified full (write_at full k v (some (node [] nil)))
  | false ↦ vivified full (linked s (node [] nil) (write_at (full ++ s ∷ []) k v none))
]
write_at full (s ∷ k) v (some t) = elim (is_blank s) [
  | true ↦ write_at full k v (some t)
  | false ↦ linked s t (write_at (full ++ label s (children t) ∷ []) k v (child s (children t)))
]

-- delete node, for the node at a path below the root
abbrev pub relinked : Segment → Tree → Option Tree → Tree
relinked s t none = t
relinked s t (some below) = node (value t) (put_child s below (children t))

abbrev pub map_tree : (Tree → Tree) → Option Tree → Option Tree
map_tree f none = none
map_tree f (some t) = some (f t)

unfoldable pub delete_at : Segment → Key → Tree → Tree
delete_at s [] t = node (value t) (unlink s (children t))
delete_at s (s' ∷ k) t = relinked s t (map_tree (delete_at s' k) (child s (children t)))

-- the path to the node without the blanks, at which `find` stays where it is
abbrev pub delete_path : Key → Tree → Option Tree
delete_path [] t = none
delete_path (s ∷ k) t = some (delete_at s k t)

abbrev pub gone : Key → Delta
gone full = (full, none)

-- the removal of a subtree: inside a second hold every key below is reported, the node's own last
unfoldable pub remove_subtree : Key → Tree → Tree → TempGen → Option TempGen
remove_subtree key root found g = do
  told ← delta_all (map gone (visit_tree (fullkey key root) found)) (hold_delta g.gen)
  freed ← unhold_delta told
  some (record { root = delete_path (nonblank key) root; dirty = true; gen = freed })

abbrev pub remove_found : Key → Tree → Option Tree → TempGen → Option TempGen
remove_found key root none g = some g
remove_found key root (some found) g = remove_subtree key root found g

abbrev pub remove_key : Key → Option Tree → TempGen → Option TempGen
remove_key key none g = some g
remove_key key (some root) g = remove_found key root (find key root) g

unfoldable pub write_key : Key → Bytes → TempGen → Option TempGen
write_key key v g = do
  let w = write_at [] key v g.root
  told ← delta_all w.news g.gen
  some (record { root = some w.tree; dirty = g.dirty || w.changed; gen = told })

-- the key without its last segment, if that is blank
abbrev pub strip : Key → Key
strip key = if ends_blank key then (pop (numsegments key - 1) key).0 else key

abbrev pub change : Key → Option Bytes → TempGen → Option TempGen
change key none g = remove_key (strip key) g.root g
change key (some v) g = if ends_blank key then some g else write_key key v g

unfoldable pub set : Key → Option Bytes → TempGen → Option TempGen
set key v g = do
  done ← change key v (record g { gen = hold_delta g.gen })
  gen ← unhold_delta done.gen
  some (record done { gen = gen })

-- setv_naive
unfoldable pub setv : List (Key × Option Bytes) → TempGen → Option TempGen
setv [] g = some g
setv ((k, v) ∷ pairs) g = do g' ← set k v g; setv pairs g'

abbrev has_children : Option Tree → Bool
has_children none = false
has_children (some t) = haschildren t

unfoldable pub has_children_at : TempGen → Key → Bool
has_children_at g key = has_children (find_root g.root key)
