-- ===== src/BufferStore/Memory.antt =====
-- The memory operations of utils/wvbufferstore.cc (`MemOps`), on an array of bytes. `none` is an access
-- behind the array.
pub mod Regions
use wvstreams.Prelude.{
  ◌>>=◌, ℕ, zero, suc, ◌+◌, Bool, true, false, ◌&&◌, Option, none, some, List, [], ◌∷◌, ◌++◌, Bytes,
  length, get_elem?, take, drop, leb, if◌then◌else◌,
}

-- memmove within the array, from `source` to `target`
unfoldable pub memmove : Bytes → ℕ → ℕ → ℕ → Option Bytes
memmove d target source count =
    if leb (target + count) (length d) && leb (source + count) (length d)
    then some (take target d ++ (take count (drop source d) ++ drop (target + count) d))
    else none

-- memcpy of other bytes into the array
unfoldable pub memcpy : Bytes → ℕ → Bytes → Option Bytes
memcpy d target bytes =
    if leb (target + length bytes) (length d)
    then some (take target d ++ (bytes ++ drop (target + length bytes) d))
    else none

abbrev pub set_at : Bytes → ℕ → ℕ → Bytes
set_at [] i v = []
set_at (x ∷ d) zero v = v ∷ d
set_at (x ∷ d) (suc i) v = x ∷ set_at d i v

-- `swap`, byte by byte
unfoldable pub memswap : Bytes → ℕ → ℕ → ℕ → Option Bytes
memswap d target source zero = some d
memswap d target source (suc count) = do
  x ← get_elem? d target
  y ← get_elem? d source
  memswap (set_at (set_at d target y) source x) (target + 1) (source + 1) count
