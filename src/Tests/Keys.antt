-- ===== src/Tests/Keys.antt =====
-- uniconf/uniconfkey.cc at concrete inputs.
use wvstreams.Prelude.{
  ◌>>=◌, arith, none, true, false, some, [], ◌∷◌, ◌++◌, codes, ◌≡◌, ◌≢◌, refl, inr,
}
use wvstreams.Ctype.{tolower}
use wvstreams.UniConf.Key
use wvstreams.UniConf.Key.{
  Key, is_blank, from_text, printable, join, compareto, same_key, matches, subkey, any_key,
  recursive_any, first, collapse, trailing,
}
use wvstreams.UniConf.Key.Compare.{less, strcasecmp}
use wvstreams.UniConf.Key.Order.{compareto_trans}
use wvstreams.UniConf.Key.Text.{from_text-printable}
use wvstreams.UniConf.Key.Paths.{IsPlain, subkey-join}
use wvstreams.UniConf.Slice
use wvstreams.UniConf.Slice.{Slice, key_of, append_slice, prepend_slice}
use wvstreams.UniConf.Slice.Prepend.{prepend_slice-append}
use wvstreams.UniConf.Slice.Append.{append_slice-append, append_slice_outside}
use wvstreams.UniConf.Key.Wildcards.{any_tail, matches_recursive}

key_program : Unit {0}
unfolding Key.hastrailingslash collapse Key.nonblank Key.split_slash from_text join tolower
    Key.range Key.removefirst Key.last Key.pop Key.join_text printable compareto strcasecmp
    Key.same_text Key.iswild Key.some_suffix Key.matches_from matches Key.suborsame subkey
key_program = tt

abbrev net : Key
net = codes "Net" ∷ codes "eth0" ∷ []

abbrev address : Key
address = codes "ip" ∷ codes "addr" ∷ []

net_text : from_text (codes "/Net//eth0") ≡ net
unfolding key_program
net_text = refl

net_text_slash : from_text (codes "Net/eth0/") ≡ net ++ [] ∷ []
unfolding key_program
net_text_slash = refl

star_inside : matches net (codes "Net" ∷ codes "*" ∷ []) ≡ false
unfolding key_program
star_inside = refl

star_first : matches net (codes "*" ∷ codes "ETH0" ∷ []) ≡ true
unfolding key_program
star_first = refl

dots_first : matches (net ++ address) (codes "..." ∷ codes "*" ∷ codes "addr" ∷ []) ≡ true
unfolding key_program
dots_first = refl

net-IsPlain : IsPlain net
net-IsPlain = (refl, (refl, tt))

address-IsPlain : IsPlain address
address-IsPlain = (refl, (refl, tt))

address_some : address ≢ []
address_some h = cc

net_dots : subkey net (net ++ address) ≡ some address
unfolding key_program
net_dots = refl

from_text-printable_example : from_text (printable (net ++ [] ∷ [])) ≡ net ++ [] ∷ []
from_text-printable_example =
    from_text-printable (net ++ [] ∷ [])
      ((refl, (refl, (refl, (refl, tt)))), ((refl, (refl, (refl, (refl, (refl, tt))))), inr refl))

subkey-join_example : subkey net (join net address) ≡ some address
subkey-join_example = subkey-join net address net-IsPlain address-IsPlain address_some

compareto_trans_example : compareto address (codes "x" ∷ []) ≡ less
compareto_trans_example =
    compareto_trans address net (codes "x" ∷ []) (unfold key_program in refl)
      (unfold key_program in refl)

matches_recursive_example :
    matches (net ++ address) (codes "..." ∷ address)
    ≡ any_tail (λ part. matches part (Key.collapse address)) (net ++ address)
matches_recursive_example = matches_recursive (net ++ address) address

-- it matches one suffix here, and none of a key that ends otherwise
recursive_wildcards :
    (matches (net ++ address) (codes "..." ∷ address) ≡ true)
    × (matches address (codes "..." ∷ net) ≡ false)
unfolding key_program
recursive_wildcards = (refl, refl)

-- the vector of a key that was just read from the text "a/b/c"
abbrev three : Slice
three = record {
  segments = record { vec = codes "a" ∷ codes "b" ∷ codes "c" ∷ []; used = 3 };
  shared = false;
  left = 0;
  right = 3;
}

abbrev popped : Slice
popped = record three { left = 2 }

slice_program : Unit {0}
unfolding key_program Slice.resize Slice.replace Slice.collapse_slice Slice.unique Slice.put_all
    append_slice Slice.pop_slice Slice.shift_loop Slice.resize_shifted Slice.place_all prepend_slice
slice_program = tt

pop_three : Slice.pop_slice 2 three ≡ popped
unfolding slice_program
pop_three = refl

append_slice-append_example :
    (append_slice address three >>= λ k. some (key_of k))
    ≡ some (Key.collapse (key_of three ++ (Key.nonblank address ++ Key.trailing address)))
append_slice-append_example =
    append_slice-append address three
      (record { ordered = omega arith; filled = omega arith; allocated = omega arith }) (inr refl)

append_slice_outside_example : append_slice (codes "d" ∷ []) popped ≡ none
append_slice_outside_example =
    append_slice_outside (codes "d" ∷ []) popped (refl, tt) (λ h. cc) refl
      (record { ordered = omega arith; filled = omega arith; allocated = omega arith })
      (omega arith) refl

prepend_slice-append_example :
    (prepend_slice net three >>= λ k. some (key_of k)) ≡ some (Key.collapse (net ++ key_of three))
prepend_slice-append_example =
    prepend_slice-append net three (refl, (refl, tt))
      (record { ordered = omega arith; filled = omega arith; allocated = omega arith })
      (inr (refl, refl))

-- in the vector from which two segments were popped a name is written behind the end; a blank inside the
-- path makes the segment behind it overwrite the key
prepend_wrong :
    (prepend_slice (codes "d" ∷ []) popped ≡ none)
    × ((prepend_slice (codes "x" ∷ [] ∷ codes "y" ∷ []) three >>= λ k. some (key_of k))
        ≡ some (codes "x" ∷ [] ∷ codes "y" ∷ codes "b" ∷ codes "c" ∷ []))
unfolding slice_program
prepend_wrong = (refl, refl)
