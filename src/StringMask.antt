-- ===== src/StringMask.antt =====
-- utils/wvstringmask.cc: a set of characters. `char` is signed, so that `unsigned(c)` of a byte of
-- 128 or more lies outside the array; such a write is `none`.
pub mod Members
use wvstreams.Prelude.{
  ℕ, ◌+◌, ◌-◌, ◌^◌, Bool, true, false, Option, none, some, [], ◌∷◌, Bytes, ltb, ◌==◌, if◌then◌else◌,
}

pub record WvStringMask : Type 0 where
  pub member : ℕ → Bool
  pub first : ℕ

unfoldable pub zap : WvStringMask
zap = record { member = λ _. false; first = 0 }

-- unsigned(c), for a signed char with the bits of the byte c
unfoldable pub to_unsigned : ℕ → ℕ
to_unsigned c = if ltb c 128 then c else c + 2 ^ 32 - 256

unfoldable pub update : (ℕ → Bool) → ℕ → Bool → ℕ → Bool
update f i value j = if i == j then value else f j

abbrev set_first : WvStringMask → ℕ → ℕ
set_first m c = if m.first == 0 then c else m.first

-- set(const char c, bool value)
unfoldable pub set : WvStringMask → ℕ → Bool → Option WvStringMask
set m c value =
    if ltb (to_unsigned c) 256
    then some (record { member = update m.member (to_unsigned c) value; first = set_first m c })
    else none

-- the loop of set(WvStringParm s, bool value)
unfoldable pub set_each : (ℕ → Bool) → Bytes → Bool → Option (ℕ → Bool)
set_each f [] value = some f
set_each f (c ∷ s) value =
    let rest = set_each (update f (to_unsigned c) value) s value in
    if ltb (to_unsigned c) 256 then rest else none

abbrev pub head_or_nul : Bytes → ℕ
head_or_nul [] = 0
head_or_nul (c ∷ _) = c

abbrev with_first : Option (ℕ → Bool) → ℕ → Option WvStringMask
with_first none first = none
with_first (some f) first = some (record { member = f; first = first })

-- set(WvStringParm s, bool value); `none` for s is the null string
unfoldable pub set_str : WvStringMask → Option Bytes → Bool → Option WvStringMask
set_str m none value = some m
set_str m (some s) value = with_first (set_each m.member s value) (set_first m (head_or_nul s))

-- WvStringMask(WvStringParm s)
unfoldable pub from_str : Option Bytes → Option WvStringMask
from_str s = set_str zap s true

-- operator[]
unfoldable pub contains : WvStringMask → ℕ → Bool
contains m c = m.member c
