-- ===== src/BufferStore/Linked.antt =====
-- utils/wvbufferstore.cc: WvLinkedBufferStore, for bytes: a list of circular stores, of
-- which the first is read and the last is written. `none` is a failed assertion. An array that was not
-- written yet holds zeros here. New stores are those of WvDynBufStore.
pub mod Coalesce
pub mod Join
pub mod Reads
use wvstreams.Prelude.{
  ◌>>=◌, ℕ, zero, suc, ◌+◌, ◌-◌, ◌*◌, ◌%◌, Bool, true, false, not, ◌&&◌, Option, none, some, List,
  [], ◌∷◌, ◌++◌, Bytes, length, take, drop, ltb, leb, ◌==◌, if◌then◌else◌, ◌^◌, ◌/◌,
}
use wvstreams.BufferStore.Base.{at_most, basicmerge}
use wvstreams.BufferStore.Circular.{WvCircularBufStore}
use wvstreams.BufferStore.Circular

pub record WvLinkedBufferStore : Type 0 where
  pub list : List WvCircularBufStore
  pub totalused : ℕ
  pub maxungettable : ℕ

-- the fields of WvDynBufStore that do not change
pub record Sizes : Type 0 where
  pub granularity : ℕ
  pub minalloc : ℕ
  pub maxalloc : ℕ

unfoldable pub roundup : ℕ → ℕ → ℕ
roundup value boundary =
    if value % boundary == 0 then value else value + boundary - value % boundary

abbrev pub zeros : ℕ → Bytes
zeros zero = []
zeros (suc n) = 0 ∷ zeros n

-- the size that WvDynBufStore::newbuffer chooses, before it is rounded up
unfoldable pub new_size : Sizes → ℕ → ℕ → ℕ
new_size sizes used minsize =
    let doubled = if ltb used (minsize * 2) then minsize * 2 else used in
    let bounded =
      if ltb doubled sizes.minalloc
      then sizes.minalloc
      else if ltb sizes.maxalloc doubled
      then sizes.maxalloc
      else doubled in
    if ltb bounded minsize then minsize else bounded

-- newbuffer of WvDynBufStore, with that of WvLinkedBufferStore
unfoldable pub newbuffer : Sizes → ℕ → ℕ → WvCircularBufStore
newbuffer sizes used minsize = record {
  bytes = zeros (roundup (new_size sizes used minsize) sizes.granularity);
  head = 0;
  totalused = 0;
  totalinit = 0;
}

-- a chunk of the next store is merged into `buf`; `next` goes on with the loop
unfoldable pub merge_chunk :
    (WvCircularBufStore → ℕ → Option (WvCircularBufStore × List WvCircularBufStore))
    → WvCircularBufStore
    → ℕ
    → WvCircularBufStore
    → List WvCircularBufStore
    → Option (WvCircularBufStore × List WvCircularBufStore)
merge_chunk next buf needed itbuf rest =
    let chunk = at_most (Circular.used itbuf) needed in
    basicmerge Circular.store Circular.store chunk itbuf buf >>= λ r.
    if needed - chunk == 0 then some (r.1, r.0 ∷ rest) else next r.1 (needed - chunk)

-- The loop of coalesce: the stores behind `buf` are merged into it, and the empty ones are unlinked.
unfoldable pub coalesce_loop :
    WvCircularBufStore
    → ℕ
    → List WvCircularBufStore
    → Option (WvCircularBufStore × List WvCircularBufStore)
coalesce_loop buf needed [] = none
coalesce_loop buf needed (itbuf ∷ rest) = elim (Circular.used itbuf == 0) [
  | true ↦ coalesce_loop buf needed rest
  | false ↦ merge_chunk (λ b n. coalesce_loop b n rest) buf needed itbuf rest
]

-- what is given back of the first store before it is merged into a new one
unfoldable pub must_skip : WvLinkedBufferStore → WvCircularBufStore → ℕ
must_skip s buf = if s.totalused == 0 then 0 else at_most (Circular.ungettable buf) s.maxungettable

-- coalesce at the first store of the list, `buf`, in the state that `get` has set
unfoldable pub coalesce :
    Sizes
    → WvLinkedBufferStore
    → ℕ
    → WvCircularBufStore
    → List WvCircularBufStore
    → Option (WvCircularBufStore × List WvCircularBufStore)
coalesce sizes s count buf rest =
    if leb count (Circular.used buf)
    then some (buf, rest)
    else if leb (count - Circular.used buf) (Circular.free buf)
    then coalesce_loop buf (count - Circular.used buf) rest
    else (do
      let mustskip = must_skip s buf
      buf' ← if s.totalused == 0 then some buf else Circular.unget mustskip buf
      (merged, rest') ←
          coalesce_loop (newbuffer sizes s.totalused (count + mustskip)) (count + mustskip)
            (buf' ∷ rest)
      (skipped, merged') ← Circular.get mustskip merged
      some (merged', rest'))

-- The empty stores at the front are unlinked, and with the first of the list goes what can be given back.
unfoldable pub first_used :
    List WvCircularBufStore → ℕ → Option (WvCircularBufStore × List WvCircularBufStore × ℕ)
first_used [] maxungettable = none
first_used (buf ∷ rest) maxungettable = elim (Circular.used buf == 0) [
  | true ↦ first_used rest 0
  | false ↦ some (buf, rest, maxungettable)
]

unfoldable pub get : Sizes → ℕ → WvLinkedBufferStore → Option (Bytes × WvLinkedBufferStore)
get sizes count s = if count == 0 then some ([], s) else if ltb s.totalused count then none else (do
  let totalused = s.totalused - count
  (buf, rest, maxungettable) ← first_used s.list s.maxungettable
  (buf', rest') ←
      coalesce sizes
        (record { list = buf ∷ rest; totalused = totalused; maxungettable = maxungettable }) count
        buf rest
  (bytes, buf'') ← Circular.get count buf'
  some (
    bytes,
    record { list = buf'' ∷ rest'; totalused = totalused; maxungettable = maxungettable + count },
  ))

abbrev pub unget_first : ℕ → List WvCircularBufStore → Option (List WvCircularBufStore)
unget_first count [] = none
unget_first count (buf ∷ rest) = Circular.unget count buf >>= λ b. some (b ∷ rest)

unfoldable pub unget : ℕ → WvLinkedBufferStore → Option WvLinkedBufferStore
unget count s = if count == 0 then some s else if ltb s.maxungettable count then none else (do
  list ← unget_first count s.list
  some (record {
    list = list;
    totalused = s.totalused + count;
    maxungettable = s.maxungettable - count;
  }))

-- the first store that has something to get
unfoldable pub first_gettable : List WvCircularBufStore → ℕ
first_gettable [] = 0
first_gettable (buf ∷ rest) =
    let later = first_gettable rest in
    if Circular.optgettable buf == 0 then later else Circular.optgettable buf

unfoldable pub first_ungettable : ℕ → List WvCircularBufStore → ℕ
first_ungettable maxungettable [] = 0
first_ungettable maxungettable (buf ∷ rest) = at_most (Circular.ungettable buf) maxungettable

unfoldable pub zap : WvLinkedBufferStore → WvLinkedBufferStore
zap s = record { list = []; totalused = 0; maxungettable = 0 }
