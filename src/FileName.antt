-- ===== src/FileName.antt =====
-- utils/wvstrutils.cc: getfilename and getdirname. A text is the list of its characters, of which none is the
-- zero character; a null text is the empty one.
pub mod Split
use wvstreams.Prelude.{
  ℕ, zero, suc, ◌+◌, Bool, true, false, Option, none, some, List, [], ◌∷◌, Bytes, length, ◌==◌,
  if◌then◌else◌,
}

-- strrchr of '/', with what stands before it and behind it
unfoldable pub last_slash : Bytes → Option (Bytes × Bytes)
last_slash [] = none
last_slash (c ∷ text) =
    let later = last_slash text in
    elim later [
      | some (before, behind) ↦ some (c ∷ before, behind)
      | none ↦ if c == 47 then some ([], text) else none
    ]

-- getfilename; each call of itself is on a shorter text
unfoldable pub filename_loop : ℕ → Bytes → Bytes
filename_loop zero fullname = fullname
filename_loop (suc rounds) fullname = elim (last_slash fullname) [
  | none ↦ fullname
  | some (before, behind) ↦ elim behind [ [] ↦ filename_loop rounds before | c ∷ rest ↦ c ∷ rest ]
]

unfoldable pub getfilename : Bytes → Bytes
getfilename fullname = filename_loop (length fullname) fullname

-- getdirname, likewise; "." where there is no slash
unfoldable pub dirname_loop : ℕ → Bytes → Bytes
dirname_loop zero fullname = fullname
dirname_loop (suc rounds) fullname = elim fullname [
  | [] ↦ []
  | x ∷ text ↦ elim (last_slash (x ∷ text)) [
    | none ↦ 46 ∷ []
    | some (before, behind) ↦ elim behind [
      | [] ↦ dirname_loop rounds before
      | c ∷ rest ↦ elim before [ [] ↦ 47 ∷ [] | b ∷ more ↦ b ∷ more ]
    ]
  ]
]

unfoldable pub getdirname : Bytes → Bytes
getdirname fullname = dirname_loop (length fullname) fullname
