-- ===== src/FileName/Split.antt =====
-- A path is its directory and its file's name.
use wvstreams.Prelude.{
  ℕ, zero, suc, ◌≤◌, ◌<◌, false, none, some, [], ◌∷◌, ◌++◌, append_assoc, append-nil, Bytes, All,
  length, length-append, ◌==◌, ◌≡◌, ◌≢◌, refl, sym, ap, ◌∙◌, arith,
}
use wvstreams.FileName.{last_slash, filename_loop, getfilename, dirname_loop, getdirname}

-- a text with no slash
abbrev NoSlash : Bytes → Type 0
NoSlash text = All (λ c. c ≢ 47) text

last_slash-none : (name : Bytes) → NoSlash name → last_slash name ≡ none
unfolding last_slash
last_slash-none [] h = refl
last_slash-none (c ∷ name) (h, hs) =
    let other : (c == 47) ≡ false = ground (arith, h) in
    rw (last_slash-none name hs, last_slash) (rw other refl)

last_slash_here : (name : Bytes) → NoSlash name → last_slash (47 ∷ name) ≡ some ([], name)
unfolding last_slash
last_slash_here name h = rw (last_slash-none name h, last_slash) refl

last_slash_later :
    (c : ℕ) (text before behind : Bytes)
    → last_slash text ≡ some (before, behind)
    → last_slash (c ∷ text) ≡ some (c ∷ before, behind)
unfolding last_slash
last_slash_later c text before behind e = rw (e, last_slash) refl

-- the last slash stands before a name that has none
last_slash-append :
    (dir name : Bytes) → NoSlash name → last_slash (dir ++ (47 ∷ name)) ≡ some (dir, name)
last_slash-append [] name h = last_slash_here name h
last_slash-append (c ∷ dir) name h =
    last_slash_later c (dir ++ (47 ∷ name)) dir name (last_slash-append dir name h)

no_slash_of_nothing : (before behind : Bytes) → last_slash [] ≡ some (before, behind) → ⊥
unfolding last_slash
no_slash_of_nothing before behind e = cc e

-- one call, at a slash at the end and at another
filename_slash :
    (rounds : ℕ) (text before : Bytes)
    → last_slash text ≡ some (before, [])
    → filename_loop (suc rounds) text ≡ filename_loop rounds before
unfolding filename_loop
filename_slash rounds text before e = rw (e, filename_loop) refl

filename_here :
    (rounds c : ℕ) (text before rest : Bytes)
    → last_slash text ≡ some (before, c ∷ rest)
    → filename_loop (suc rounds) text ≡ c ∷ rest
unfolding filename_loop
filename_here rounds c text before rest e = rw (e, filename_loop) refl

dirname_slash :
    (rounds : ℕ) (text before : Bytes)
    → last_slash text ≡ some (before, [])
    → dirname_loop (suc rounds) text ≡ dirname_loop rounds before
unfolding dirname_loop
dirname_slash rounds [] before e = absurd (no_slash_of_nothing before [] e)
dirname_slash rounds (x ∷ text) before e = rw (e, dirname_loop) refl

-- the root is written, and no other empty directory
abbrev or_root : Bytes → Bytes
or_root [] = 47 ∷ []
or_root (b ∷ more) = b ∷ more

dirname_here :
    (rounds c : ℕ) (text before rest : Bytes)
    → last_slash text ≡ some (before, c ∷ rest)
    → dirname_loop (suc rounds) text ≡ or_root before
unfolding dirname_loop
dirname_here rounds c [] before rest e = absurd (no_slash_of_nothing before (c ∷ rest) e)
dirname_here rounds c (x ∷ text) [] rest e = rw (e, dirname_loop) refl
dirname_here rounds c (x ∷ text) (b ∷ more) rest e = rw (e, dirname_loop) refl

abbrev slashes : ℕ → Bytes
slashes zero = []
slashes (suc k) = slashes k ++ (47 ∷ [])

-- a path with slashes at its end
abbrev path : Bytes → Bytes → ℕ → Bytes
path dir name k = (dir ++ (47 ∷ name)) ++ slashes k

one_slash_more :
    (dir name : Bytes) (k : ℕ) → last_slash (path dir name (suc k)) ≡ some (path dir name k, [])
one_slash_more dir name k =
    ap last_slash (sym (append_assoc (dir ++ (47 ∷ name)) (slashes k) (47 ∷ [])))
    ∙ last_slash-append (path dir name k) [] tt

both_parts :
    (rounds : ℕ) (dir : Bytes) (c : ℕ) (name : Bytes) (k : ℕ)
    → NoSlash (c ∷ name)
    → k < rounds
    → (filename_loop rounds (path dir (c ∷ name) k) ≡ c ∷ name)
      × (dirname_loop rounds (path dir (c ∷ name) k) ≡ or_root dir)
both_parts zero dir c name k h r = absurd (omega (arith, r))
both_parts (suc rounds) dir c name zero h r =
    let last : last_slash (path dir (c ∷ name) 0) ≡ some (dir, c ∷ name) =
      ap last_slash (append-nil (dir ++ (47 ∷ c ∷ name))) ∙ last_slash-append dir (c ∷ name) h in
    (
      filename_here rounds c (path dir (c ∷ name) 0) dir name last,
      dirname_here rounds c (path dir (c ∷ name) 0) dir name last,
    )
both_parts (suc rounds) dir c name (suc k) h r =
    let (file, directory) = both_parts rounds dir c name k h (omega (arith, r)) in
    (
      filename_slash rounds (path dir (c ∷ name) (suc k)) (path dir (c ∷ name) k)
            (one_slash_more dir (c ∷ name) k)
          ∙ file,
      dirname_slash rounds (path dir (c ∷ name) (suc k)) (path dir (c ∷ name) k)
            (one_slash_more dir (c ∷ name) k)
          ∙ directory,
    )

length-slashes : (k : ℕ) → length (slashes k) ≡ k
length-slashes zero = refl
length-slashes (suc k) = omega (arith, length-slashes k, length-append {0} (slashes k) (47 ∷ []))

-- Of a directory, a slash, a name that is not empty and has no slash, and any number of slashes behind
-- it, getfilename gives the name and getdirname the directory, or the root if the directory is empty.
pub path_parts :
    (dir : Bytes) (c : ℕ) (name : Bytes) (k : ℕ)
    → NoSlash (c ∷ name)
    → (getfilename (path dir (c ∷ name) k) ≡ c ∷ name)
      × (getdirname (path dir (c ∷ name) k) ≡ or_root dir)
unfolding getfilename getdirname
path_parts dir c name k h = both_parts (length (path dir (c ∷ name) k)) dir c name k h (
    omega (
      arith,
      length-slashes k,
      length-append {0} (dir ++ (47 ∷ c ∷ name)) (slashes k),
      length-append {0} dir (47 ∷ c ∷ name),
    ))

-- Of nothing but slashes both parts are the empty text, the directory too.
all_slashes :
    (rounds k : ℕ)
    → k ≤ rounds
    → (filename_loop rounds (slashes k) ≡ []) × (dirname_loop rounds (slashes k) ≡ [])
unfolding filename_loop dirname_loop last_slash
all_slashes zero zero h = (refl, refl)
all_slashes (suc rounds) zero h = (refl, refl)
all_slashes zero (suc k) h = absurd (omega (arith, h))
all_slashes (suc rounds) (suc k) h =
    let (file, directory) = all_slashes rounds k (omega (arith, h)) in
    (
      filename_slash rounds (slashes (suc k)) (slashes k) (last_slash-append (slashes k) [] tt)
          ∙ file,
      dirname_slash rounds (slashes (suc k)) (slashes k) (last_slash-append (slashes k) [] tt)
          ∙ directory,
    )

root_dirname : (k : ℕ) → getdirname (slashes k) ≡ []
unfolding getdirname
root_dirname k = (all_slashes (length (slashes k)) k (omega (arith, length-slashes k))).1
