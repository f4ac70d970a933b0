-- ===== src/UniConf/Tree.antt =====
-- uniconf/unihashtree.cc and include/uniconftree.h: the tree of keys and values. The children of a
-- node stand in a hash table whose order of iteration is not specified; here they are a list, and a
-- theorem about an order among children is about that list. A pointer to a node is the path to it.
pub mod Lookup
use wvstreams.Prelude.{
  ℕ, Bool, true, false, ◌&&◌, Option, none, some, List, [], ◌∷◌, ◌++◌, Bytes, if◌then◌else◌,
}
use wvstreams.UniConf.Key.{Segment, Key, is_blank}
use wvstreams.UniConf.Key.Compare.{is_same, strcasecmp}

mutual
  -- UniConfValueTree: a value, and the children by their keys
  pub data Tree : Type 0 where
    node : Bytes → Forest → Tree

  pub data Forest : Type 0 where
    nil : Forest
    cons : Segment → Tree → Forest → Forest

abbrev pub value : Tree → Bytes
value (node v f) = v

abbrev pub children : Tree → Forest
children (node v f) = f

-- keys of one segment are compared as `compareto` does
abbrev pub same_segment : Segment → Segment → Bool
same_segment s t = is_same (strcasecmp s t)

-- (*xchildren)[key]
unfoldable pub child : Segment → Forest → Option Tree
child s nil = none
child s (cons l t f) = if same_segment l s then some t else child s f

-- the key under which that child stands, which may differ in case
unfoldable pub label : Segment → Forest → Segment
label s nil = s
label s (cons l t f) = if same_segment l s then l else label s f

-- _findchild and _find; a blank segment stays at the node
abbrev pub and_find : (Tree → Option Tree) → Option Tree → Option Tree
and_find g none = none
and_find g (some t) = g t

unfoldable pub find : Key → Tree → Option Tree
find [] t = some t
find (s ∷ k) t = elim (is_blank s) [
  | true ↦ find k t
  | false ↦ and_find (find k) (child s (children t))
]

-- fullkey of the node that `find` returns: the path as the tree spells it
abbrev pub then_fullkey : (Tree → Key) → Key → Option Tree → Key
then_fullkey g k none = k
then_fullkey g k (some t) = g t

unfoldable pub fullkey : Key → Tree → Key
fullkey [] t = []
fullkey (s ∷ k) t = elim (is_blank s) [
  | true ↦ fullkey k t
  | false ↦ label s (children t) ∷ then_fullkey (fullkey k) k (child s (children t))
]

-- the child takes the place of the one that has its key, or is linked in
unfoldable pub put_child : Segment → Tree → Forest → Forest
put_child s t nil = cons s t nil
put_child s t (cons l u f) = if same_segment l s then cons l t f else cons l u (put_child s t f)

-- unlink
unfoldable pub unlink : Segment → Forest → Forest
unlink s nil = nil
unlink s (cons l u f) = if same_segment l s then f else cons l u (unlink s f)

-- haschildren
unfoldable pub haschildren : Tree → Bool
haschildren (node v nil) = false
haschildren (node v (cons l t f)) = true

-- _recursive_unsorted_visit in postorder: the full keys, as the visitor is called with them
unfoldable mutual
  pub visit_tree : Key → Tree → List Key
  visit_tree full (node v f) = visit_forest full f ++ full ∷ []

  pub visit_forest : Key → Forest → List Key
  visit_forest full nil = []
  visit_forest full (cons l t f) = visit_tree (full ++ l ∷ []) t ++ visit_forest full f
