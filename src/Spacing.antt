-- ===== src/Spacing.antt =====
-- utils/wvstrutils.cc: spacecat and undupe. A text is the list of its characters, of which none is the zero
-- character. Reading before a text is `none`, as is reading behind its terminating zero.
pub mod Separators
pub mod Runs
use wvstreams.Prelude.{
  ℕ, zero, suc, ◌+◌, Bool, true, false, ◌&&◌, Option, none, some, ◌>>=◌, List, [], ◌∷◌, ◌++◌, Bytes,
  length, take, get_elem?, ltb, ◌==◌, if◌then◌else◌,
}

-- the loop on the back of `a`
unfoldable pub eat_back : ℕ → Bytes → ℕ → Option ℕ
eat_back sep a zero = none
eat_back sep a (suc alen) =
    let rest = eat_back sep a alen in
    get_elem? a alen >>= λ c. if c == sep then rest else some (suc alen)

-- the loop on the front of `b`, with what stands at the offset; no zero is eaten unless it is the separator
unfoldable pub eat_front : ℕ → Bytes → Option Bytes
eat_front sep [] = if sep == 0 then none else some []
eat_front sep (c ∷ b) = let rest = eat_front sep b in if c == sep then rest else some (c ∷ b)

-- The characters before the zero that is written at the end.
unfoldable pub spacecat : Bytes → Bytes → ℕ → Bool → Option Bytes
spacecat a b sep onesep = do
  alen ← if onesep && ltb 0 (length a) then eat_back sep a (length a) else some (length a)
  rest ← if onesep then eat_front sep b else some b
  some (take alen a ++ (sep ∷ rest))

-- the loop of undupe, with `last`
unfoldable pub undupe_loop : Bytes → ℕ → Bool → Bytes
undupe_loop [] c last = []
undupe_loop (x ∷ s) c last =
    let other = undupe_loop s c false in
    let same = undupe_loop s c true in
    if x == c then (if last then same else x ∷ same) else x ∷ other

unfoldable pub undupe : Bytes → ℕ → Bytes
undupe s c = undupe_loop s c false
