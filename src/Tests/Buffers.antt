-- ===== src/Tests/Buffers.antt =====
-- utils/wvbufferstore.cc at concrete inputs.
use wvstreams.Prelude.{◌+◌, some, [], ◌∷◌, ◌≡◌, refl, arith}
use wvstreams.Prelude.Int.{negsuc}
use wvstreams.BufferStore.Base.{peekable, fastput, put, basicmerge}
use wvstreams.BufferStore.Base.Merges.{basicmerge_lem}
use wvstreams.BufferStore.Base.Merges.Rounds.{Moves}
use wvstreams.BufferStore.InPlace.{WvInPlaceBufStore, store as linear_store}
use wvstreams.BufferStore.InPlace.Implements.{contract as linear_contract, IsValid as LinearIsValid}
use wvstreams.BufferStore.Circular.{
  WvCircularBufStore, free, optgettable, get, compact, mutablepeek, store,
}
use wvstreams.BufferStore.Circular.Compact.{Begins, compact_lem}
use wvstreams.BufferStore.Circular.State.{IsValid, queue}
use wvstreams.BufferStore.Circular.Reads.{Takes, get_lem}
use wvstreams.BufferStore.Circular.Implements.{contract}
use wvstreams.BufferStore.Circular.Peek.{Peeks, mutablepeek-peekable}
use wvstreams.BufferStore.Circular.Overrun.{peek_stuck}
use wvstreams.BufferStore.Linked
use wvstreams.BufferStore.Linked.{WvLinkedBufferStore, Sizes}
use wvstreams.BufferStore.Linked.Coalesce.{none_valid, next_valid}
use wvstreams.BufferStore.Linked.Reads.{IsValid as LinkedIsValid, Gets, linked_get_lem}
use wvstreams.BufferStore.Dynamic.{dyn_store}
use wvstreams.BufferStore.Dynamic.Writes.{Extends, dyn_put}
use wvstreams.BufferStore.Circular.Queue.{put-queue}

-- two bytes unread, of which the second stands at the array's start, and one byte that was read
abbrev wrapped : WvCircularBufStore
wrapped = record { bytes = 1 ∷ 2 ∷ 3 ∷ 4 ∷ []; head = 3; totalused = 2; totalinit = 3 }

wrapped-IsValid : IsValid wrapped
wrapped-IsValid = record {
  head_inside = omega arith;
  used_known = omega arith;
  init_fits = omega arith;
}

abbrev linear : WvInPlaceBufStore
linear = record { bytes = 7 ∷ 0 ∷ 0 ∷ 0 ∷ []; readidx = 0; writeidx = 1 }

linear-IsValid : LinearIsValid linear
linear-IsValid = record { ordered = omega arith; inside = omega arith }

-- all bytes read, and all of them can be given back
abbrev read_through : WvCircularBufStore
read_through = record { bytes = 5 ∷ 6 ∷ 7 ∷ []; head = 1; totalused = 0; totalinit = 3 }

read_through-IsValid : IsValid read_through
read_through-IsValid = record {
  head_inside = omega arith;
  used_known = omega arith;
  init_fits = omega arith;
}

compact_lem_example :
    Begins (1 ∷ 2 ∷ 3 ∷ 4 ∷ 5 ∷ []) (4 ∷ 5 ∷ 1 ∷ 2 ∷ 3 ∷ []) (compact (1 ∷ 2 ∷ 3 ∷ 4 ∷ 5 ∷ []) 3 5)
compact_lem_example = compact_lem (1 ∷ 2 ∷ 3 ∷ 4 ∷ 5 ∷ []) 3 5 (omega arith) (omega arith)

get_lem_example : Takes wrapped 2 (get 2 wrapped)
get_lem_example = get_lem wrapped 2 wrapped-IsValid (omega arith)

put-queue_example :
    (t : WvCircularBufStore) × (put store (8 ∷ 9 ∷ []) wrapped ≡ some t)
    × IsValid t
    × (queue t ≡ 4 ∷ 1 ∷ 8 ∷ 9 ∷ [])
    × (free t + 2 ≡ free wrapped)
put-queue_example = put-queue wrapped (8 ∷ 9 ∷ []) wrapped-IsValid (omega arith)

basicmerge_lem_example :
    Moves store linear_store contract linear_contract 3 2
      (4 ∷ 1 ∷ [])
      (7 ∷ [])
      (basicmerge store linear_store 2 wrapped linear)
basicmerge_lem_example =
    basicmerge_lem store linear_store contract linear_contract 2 wrapped linear wrapped-IsValid
      linear-IsValid (omega arith) (omega arith)

mutablepeek-peekable_example : Peeks wrapped (negsuc 0) 3 (mutablepeek (negsuc 0) 3 wrapped)
mutablepeek-peekable_example =
    mutablepeek-peekable wrapped (negsuc 0) 3 wrapped-IsValid (omega arith)
      (unfold peekable in omega arith)

peek_stuck_example :
    (t : WvCircularBufStore) × (t' : WvCircularBufStore) × (mutablepeek (negsuc 2) 3 read_through
      ≡ some (6 ∷ 7 ∷ 5 ∷ [], t))
    × (fastput store (8 ∷ []) t ≡ some t')
    × (t'.totalused ≡ 1)
    × (optgettable t' ≡ 0)
peek_stuck_example =
    peek_stuck read_through 8 read_through-IsValid (λ e. omega (arith, e)) refl refl

abbrev bytewise : Sizes
bytewise = record { granularity = 1; minalloc = 2; maxalloc = 8 }

-- a first store that is full, and one behind it
abbrev linked : WvLinkedBufferStore
linked = record {
  list =
      wrapped
      ∷ record { bytes = 5 ∷ 6 ∷ []; head = 0; totalused = 1; totalinit = 1 }
      ∷ record { bytes = 7 ∷ 8 ∷ []; head = 1; totalused = 2; totalinit = 2 }
      ∷ [];
  totalused = 5;
  maxungettable = 1;
}

linked-IsValid : LinkedIsValid linked
linked-IsValid = record {
  stores = next_valid wrapped-IsValid (
      next_valid
        (record { head_inside = omega arith; used_known = omega arith; init_fits = omega arith })
        (next_valid
          (record { head_inside = omega arith; used_known = omega arith; init_fits = omega arith })
          none_valid));
  counted = refl;
}

linked_get_lem_example : Gets linked 4 (Linked.get bytewise 4 linked)
linked_get_lem_example = linked_get_lem bytewise linked 4 (omega arith) linked-IsValid (omega arith)

dyn_put_example : Extends linked (1 ∷ 2 ∷ 3 ∷ []) (put (dyn_store bytewise) (1 ∷ 2 ∷ 3 ∷ []) linked)
dyn_put_example = dyn_put bytewise linked (1 ∷ 2 ∷ 3 ∷ []) (omega arith) linked-IsValid
