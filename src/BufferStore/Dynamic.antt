-- ===== src/BufferStore/Dynamic.antt =====
-- utils/wvbufferstore.cc: WvDynBufStore, whose room is not limited: a linked store that gets a new store at
-- its end where the last one is too small.
pub mod Writes
use wvstreams.Prelude.{
  ◌>>=◌, ℕ, zero, suc, ◌+◌, ◌-◌, ◌*◌, ◌%◌, Bool, true, false, not, ◌&&◌, Option, none, some, List,
  [], ◌∷◌, ◌++◌, Bytes, length, take, drop, ltb, leb, ◌==◌, if◌then◌else◌, ◌^◌, ◌/◌,
}
use mathlib.Core.List.{reverse}
use wvstreams.BufferStore.Base.{Store}
use wvstreams.BufferStore.Circular.{WvCircularBufStore}
use wvstreams.BufferStore.Circular
use wvstreams.BufferStore.Linked.{WvLinkedBufferStore, Sizes, newbuffer, first_gettable, get}

-- free and optallocable of WvLinkedBufferStore, which are those of the last store
unfoldable pub last_free : List WvCircularBufStore → ℕ
last_free [] = 0
last_free (buf ∷ []) = Circular.free buf
last_free (buf ∷ next ∷ rest) = last_free (next ∷ rest)

unfoldable pub last_allocable : List WvCircularBufStore → ℕ
last_allocable [] = 0
last_allocable (buf ∷ []) = Circular.optallocable buf
last_allocable (buf ∷ next ∷ rest) = last_allocable (next ∷ rest)

unfoldable pub alloc_last : ℕ → List WvCircularBufStore → Option (ℕ × List WvCircularBufStore)
alloc_last count [] = none
alloc_last count (buf ∷ []) = Circular.alloc count buf >>= λ r. some (r.0, r.1 ∷ [])
alloc_last count (buf ∷ next ∷ rest) = alloc_last count (next ∷ rest) >>= λ r. some (r.0, buf ∷ r.1)

-- the caller's copy to an index that alloc returned, in the last store
unfoldable pub write_last : ℕ → Bytes → List WvCircularBufStore → Option (List WvCircularBufStore)
write_last first new [] = none
write_last first new (buf ∷ []) = Circular.write first new buf >>= λ b. some (b ∷ [])
write_last first new (buf ∷ next ∷ rest) =
    write_last first new (next ∷ rest) >>= λ l. some (buf ∷ l)

-- alloc of WvDynBufStore, with that of WvLinkedBufferStore
unfoldable pub alloc : Sizes → ℕ → WvLinkedBufferStore → Option (ℕ × WvLinkedBufferStore)
alloc sizes count s =
    if count == 0
    then some (0, s)
    else let list =
        if ltb (last_free s.list) count
        then s.list ++ newbuffer sizes s.totalused count ∷ []
        else s.list in
      (alloc_last count list >>= λ r.
      some (r.0, record s { list = r.1; totalused = s.totalused + count }))

unfoldable pub write : ℕ → Bytes → WvLinkedBufferStore → Option WvLinkedBufferStore
write first new s =
    if length new == 0
    then some s
    else (do list ← write_last first new s.list; some (record s { list = list }))

-- unalloc, on the list with its last store first
unfoldable pub unalloc_back : ℕ → List WvCircularBufStore → Option (List WvCircularBufStore)
unalloc_back count [] = if count == 0 then some [] else none
unalloc_back count (buf ∷ rest) =
    let earlier = unalloc_back (count - Circular.used buf) rest in
    if count == 0
    then some (buf ∷ rest)
    else if ltb count (Circular.used buf)
    then (Circular.unalloc count buf >>= λ b. some (b ∷ rest))
    else earlier

unfoldable pub unalloc : ℕ → WvLinkedBufferStore → Option WvLinkedBufferStore
unalloc count s = if ltb s.totalused count then none else if count == 0 then some s else (do
  list ← unalloc_back count (reverse s.list)
  some (record {
    list = reverse list;
    totalused = s.totalused - count;
    maxungettable = if length list == 0 then 0 else s.maxungettable;
  }))

-- UNLIMITED_FREE_SPACE, with an `int` of 32 bits
abbrev pub unlimited_free_space : ℕ
unlimited_free_space = 1073741823

-- optallocable of WvDynBufStore
unfoldable pub optallocable : WvLinkedBufferStore → ℕ
optallocable s = if last_allocable s.list == 0 then unlimited_free_space else last_allocable s.list

-- the methods of WvDynBufStore
abbrev pub dyn_store : Sizes → Store WvLinkedBufferStore
dyn_store sizes = record {
  used = λ s. s.totalused;
  optgettable = λ s. first_gettable s.list;
  free = λ s. unlimited_free_space;
  optallocable = optallocable;
  get = get sizes;
  alloc = alloc sizes;
  write = write;
  unalloc = unalloc;
}
