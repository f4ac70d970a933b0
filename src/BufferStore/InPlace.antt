-- ===== src/BufferStore/InPlace.antt =====
-- utils/wvbufferstore.cc: WvInPlaceBufStore, which holds its bytes in an array that is written from its start
-- to its end. `none` is a failed assertion or an access behind the array.
pub mod Implements
use wvstreams.Prelude.{
  ◌>>=◌, ℕ, zero, suc, ◌+◌, ◌-◌, Bool, true, false, Option, none, some, List, [], Bytes, length,
  take, drop, ltb, leb, ◌==◌, if◌then◌else◌,
}
use wvstreams.Prelude.Int.{ℤ, pos, negsuc}
use wvstreams.BufferStore.Memory.{memcpy}
use wvstreams.BufferStore.Base.{Store}

pub record WvInPlaceBufStore : Type 0 where
  pub bytes : Bytes
  pub readidx : ℕ
  pub writeidx : ℕ

abbrev pub xsize : WvInPlaceBufStore → ℕ
xsize s = length s.bytes

-- reset and setavail, on an array whose first `avail` bytes are unread
unfoldable pub reset : Bytes → ℕ → Option WvInPlaceBufStore
reset bytes avail =
    if leb avail (length bytes)
    then some (record { bytes = bytes; readidx = 0; writeidx = avail })
    else none

abbrev pub used : WvInPlaceBufStore → ℕ
used s = s.writeidx - s.readidx

abbrev pub ungettable : WvInPlaceBufStore → ℕ
ungettable s = s.readidx

abbrev pub free : WvInPlaceBufStore → ℕ
free s = xsize s - s.writeidx

unfoldable pub get : ℕ → WvInPlaceBufStore → Option (Bytes × WvInPlaceBufStore)
get count s =
    if ltb (used s) count
    then none
    else some (take count (drop s.readidx s.bytes), record s { readidx = s.readidx + count })

unfoldable pub unget : ℕ → WvInPlaceBufStore → Option WvInPlaceBufStore
unget count s =
    if ltb s.readidx count then none else some (record s { readidx = s.readidx - count })

unfoldable pub zap : WvInPlaceBufStore → WvInPlaceBufStore
zap s = record s { readidx = 0; writeidx = 0 }

-- alloc: the index at which the caller writes
unfoldable pub alloc : ℕ → WvInPlaceBufStore → Option (ℕ × WvInPlaceBufStore)
alloc count s =
    if ltb (free s) count
    then none
    else some (s.writeidx, record s { writeidx = s.writeidx + count })

unfoldable pub unalloc : ℕ → WvInPlaceBufStore → Option WvInPlaceBufStore
unalloc count s =
    if ltb (used s) count then none else some (record s { writeidx = s.writeidx - count })

-- the caller's copy to an index
unfoldable pub write : ℕ → Bytes → WvInPlaceBufStore → Option WvInPlaceBufStore
write first new s = do d ← memcpy s.bytes first new; some (record s { bytes = d })

-- readidx + offset, where the assertion holds
unfoldable pub peek_index : ℤ → WvInPlaceBufStore → Option ℕ
peek_index (pos zero) s = some s.readidx
peek_index (pos (suc o)) s = if ltb (suc o) (used s) then some (s.readidx + suc o) else none
peek_index (negsuc o) s = if ltb s.readidx (o + 1) then none else some (s.readidx - (o + 1))

-- mutablepeek; NULL is no bytes
unfoldable pub mutablepeek : ℤ → ℕ → WvInPlaceBufStore → Option (Bytes × WvInPlaceBufStore)
mutablepeek offset count s =
    if count == 0
    then some ([], s)
    else (peek_index offset s >>= λ first. some (take count (drop first s.bytes), s))

-- optgettable and optallocable are WvBufStore's
abbrev pub store : Store WvInPlaceBufStore
store = record {
  used = used;
  optgettable = used;
  free = free;
  optallocable = free;
  get = get;
  alloc = alloc;
  write = write;
  unalloc = unalloc;
}
