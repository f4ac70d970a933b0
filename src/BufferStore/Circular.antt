-- ===== src/BufferStore/Circular.antt =====
-- utils/wvbufferstore.cc: WvCircularBufStore, which holds its bytes in an array that begins anew at its
-- end. Behind the unread bytes, before `head`, stand bytes that were read and can be given back. A
-- pointer into the array is an index, and a method that returns one for reading returns the bytes.
-- `none` is a failed assertion, a division by zero or an access behind the array. The sizes are far
-- from the largest `size_t`.
pub mod Ring
pub mod Compact
pub mod State
pub mod Contiguous
pub mod Reads
pub mod Writes
pub mod Implements
pub mod Peek
pub mod Overrun
pub mod Queue
use wvstreams.Prelude.{
  ◌>>=◌, ℕ, zero, suc, ◌+◌, ◌-◌, ◌%◌, Bool, true, false, Option, none, some, List, [], ◌∷◌, ◌++◌,
  Bytes, length, take, drop, ltb, leb, ◌==◌, ◌&&◌, if◌then◌else◌,
}
use wvstreams.Prelude.Int.{ℤ, pos, negsuc}
use wvstreams.BufferStore.Base.{Store}
use wvstreams.BufferStore.Memory.{memmove, memcpy, memswap}

pub record WvCircularBufStore : Type 0 where
  pub bytes : Bytes
  pub head : ℕ
  pub totalused : ℕ
  pub totalinit : ℕ

abbrev pub xsize : WvCircularBufStore → ℕ
xsize s = length s.bytes

-- reset and setavail, on an array whose first `avail` bytes are unread
unfoldable pub reset : Bytes → ℕ → Option WvCircularBufStore
reset bytes avail =
    if leb avail (length bytes)
    then some (record { bytes = bytes; head = 0; totalused = avail; totalinit = avail })
    else none

abbrev pub used : WvCircularBufStore → ℕ
used s = s.totalused

unfoldable pub optgettable : WvCircularBufStore → ℕ
optgettable s = let avail = xsize s - s.head in if ltb s.totalused avail then s.totalused else avail

abbrev pub ungettable : WvCircularBufStore → ℕ
ungettable s = s.totalinit - s.totalused

abbrev pub free : WvCircularBufStore → ℕ
free s = xsize s - s.totalused

unfoldable pub optallocable : WvCircularBufStore → ℕ
optallocable s =
    let tail = s.head + s.totalused in
    if leb (xsize s) tail then xsize s - s.totalused else xsize s - tail

unfoldable pub zap : WvCircularBufStore → WvCircularBufStore
zap s = record s { head = 0; totalused = 0; totalinit = 0 }

-- The end of case 4 of `compact`: the tail goes through a buffer.
unfoldable pub swap_rest : Bytes → ℕ → ℕ → ℕ → ℕ → Option Bytes
swap_rest d start end headcount tailcount = do
  let kept = take tailcount (drop start d)
  moved ← memmove d start end headcount
  memcpy moved (start + headcount) kept

-- Case 4: as long as the tail is not shorter than the head, they are exchanged in blocks. Each round
-- takes something off the tail, so that more rounds than the tail has bytes are enough.
unfoldable pub swap_loop : ℕ → Bytes → ℕ → ℕ → ℕ → ℕ → Option Bytes
swap_loop zero d start end headcount tailcount = none
swap_loop (suc rounds) d start end headcount tailcount = elim (leb headcount tailcount) [
  | true ↦ memswap d start end headcount >>= λ d'.
      swap_loop rounds d' (start + headcount) end headcount (tailcount - headcount)
  | false ↦ swap_rest d start end headcount tailcount
]

unfoldable pub compact_apart : Bytes → ℕ → ℕ → ℕ → ℕ → Option Bytes
compact_apart d head headcount tailcount freecount =
    if leb headcount freecount
    then (memmove d headcount 0 tailcount >>= λ d'. memmove d' 0 head headcount)
    else swap_loop (tailcount + 1) d 0 head headcount tailcount

unfoldable pub compact : Bytes → ℕ → ℕ → Option Bytes
compact d head count =
    if count == 0
    then some d
    else if leb (head + count) (length d)
    then memmove d 0 head count
    else let headcount = length d - head in
      compact_apart d head headcount (count - headcount) (length d - count)

-- discard history, and begin at the array's start
unfoldable pub normalize : WvCircularBufStore → Option WvCircularBufStore
normalize s = do
  d ← compact s.bytes s.head s.totalused
  some (record { bytes = d; head = 0; totalused = s.totalused; totalinit = s.totalused })

-- head + offset, with a negative offset too
abbrev pub shifted : ℕ → ℤ → ℕ
shifted n (pos o) = n + o
shifted n (negsuc o) = n - (o + 1)

-- the part of `ensurecontiguous` for a region that is not contiguous
unfoldable pub make_contiguous : ℤ → Bool → WvCircularBufStore → Option (ℕ × WvCircularBufStore)
make_contiguous offset keephistory s = do
  let keepstart = if keephistory then s.head + xsize s - ungettable s else s.head
  let init = if keephistory then s.totalinit else s.totalused
  d ← compact s.bytes (keepstart % xsize s) init
  let head = init - s.totalused
  some (
    shifted (head + xsize s) offset % xsize s,
    record { bytes = d; head = head; totalused = s.totalused; totalinit = init },
  )

unfoldable pub ensurecontiguous :
    ℤ → ℕ → Bool → WvCircularBufStore → Option (ℕ × WvCircularBufStore)
ensurecontiguous offset count keephistory s =
    let start = shifted (s.head + xsize s) offset % xsize s in
    if xsize s == 0
    then none
    else if count == 0
    then some (start, s)
    else if leb (start + count) (xsize s)
    then some (start, s)
    else make_contiguous offset keephistory s

-- the bytes at an index that the caller reads
abbrev pub read : ℕ → ℕ → Bytes → Bytes
read first count bytes = take count (drop first bytes)

unfoldable pub get : ℕ → WvCircularBufStore → Option (Bytes × WvCircularBufStore)
get count s = if ltb s.totalused count then none else (do
  (first, t) ← ensurecontiguous (pos 0) count false s
  some (
    read first count t.bytes,
    record t { head = (t.head + count) % xsize t; totalused = t.totalused - count },
  ))

unfoldable pub unget : ℕ → WvCircularBufStore → Option WvCircularBufStore
unget count s =
    if ltb (ungettable s) count
    then none
    else if xsize s == 0
    then none
    else some
        (record s { head = (s.head + xsize s - count) % xsize s; totalused = s.totalused + count })

-- alloc: the index at which the caller writes
unfoldable pub alloc : ℕ → WvCircularBufStore → Option (ℕ × WvCircularBufStore)
alloc count s = if ltb (free s) count then none else (do
  (first, t) ← ensurecontiguous (pos s.totalused) count false (record s { totalinit = s.totalused })
  some (first, record t { totalused = t.totalused + count; totalinit = t.totalinit + count }))

unfoldable pub unalloc : ℕ → WvCircularBufStore → Option WvCircularBufStore
unalloc count s =
    if ltb s.totalused count
    then none
    else some (record s { totalused = s.totalused - count; totalinit = s.totalinit - count })

-- the caller's copy to an index
unfoldable pub write : ℕ → Bytes → WvCircularBufStore → Option WvCircularBufStore
write first new s = do d ← memcpy s.bytes first new; some (record s { bytes = d })

abbrev pub store : Store WvCircularBufStore
store = record {
  used = used;
  optgettable = optgettable;
  free = free;
  optallocable = optallocable;
  get = get;
  alloc = alloc;
  write = write;
  unalloc = unalloc;
}

abbrev pub within_peek : ℤ → WvCircularBufStore → Bool
within_peek (pos zero) s = true
within_peek (pos (suc o)) s = ltb (suc o) s.totalused
within_peek (negsuc o) s = leb (o + 1) (ungettable s)

-- mutablepeek; NULL is no bytes
unfoldable pub mutablepeek : ℤ → ℕ → WvCircularBufStore → Option (Bytes × WvCircularBufStore)
mutablepeek offset count s =
    if count == 0
    then some ([], s)
    else if within_peek offset s
    then (do (first, t) ← ensurecontiguous offset count true s; some (read first count t.bytes, t))
    else none
