-- ===== src/Search.antt =====
-- utils/wvstrutils.cc: strreplace, beforestr and afterstr. A text is the list of its characters, of which none
-- is the zero character.
pub mod Found
use wvstreams.Prelude.{
  ℕ, zero, suc, ◌+◌, Bool, true, false, Option, none, some, ◌>>=◌, List, [], ◌∷◌, ◌++◌, Bytes,
  length, ◌==◌, if◌then◌else◌,
}

-- what stands behind `a` in a text that begins with it
unfoldable pub behind : Bytes → Bytes → Option Bytes
behind [] text = some text
behind (x ∷ a) [] = none
behind (x ∷ a) (c ∷ text) = let rest = behind a text in if x == c then rest else none

-- strstr, with what stands before the text it finds and behind it
unfoldable pub strstr : Bytes → Bytes → Option (Bytes × Bytes)
strstr a [] = behind a [] >>= λ rest. some ([], rest)
strstr a (c ∷ text) =
    let later = strstr a text in
    elim (behind a (c ∷ text)) [
      | some rest ↦ some ([], rest)
      | none ↦ later >>= λ (before, rest). some (c ∷ before, rest)
    ]

-- The loop of strreplace; `none` where it goes on for more rounds.
unfoldable pub replace_loop : ℕ → Bytes → Bytes → Bytes → Option Bytes
replace_loop zero s a b = none
replace_loop (suc rounds) s a b = elim (strstr a s) [
  | none ↦ some s
  | some (before, rest) ↦ replace_loop rounds rest a b >>= λ out. some (before ++ (b ++ out))
]

unfoldable pub strreplace : Bytes → Bytes → Bytes → Option Bytes
strreplace s a b = replace_loop (length s + 1) s a b

-- the null text is `none`
unfoldable pub afterstr : Bytes → Bytes → Option Bytes
afterstr [] a = none
afterstr (c ∷ line) [] = none
afterstr (c ∷ line) (x ∷ a) = elim (strstr (x ∷ a) (c ∷ line)) [
  | none ↦ some []
  | some (before, rest) ↦ some rest
]

unfoldable pub beforestr : Bytes → Bytes → Option Bytes
beforestr [] a = none
beforestr (c ∷ line) [] = none
beforestr (c ∷ line) (x ∷ a) = elim (strstr (x ∷ a) (c ∷ line)) [
  | none ↦ some (c ∷ line)
  | some (before, rest) ↦ some before
]
