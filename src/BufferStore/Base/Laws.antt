-- ===== src/BufferStore/Base/Laws.antt =====
-- What a store of bytes promises of its virtual methods: it is a queue with a bounded number of bytes.
use wvstreams.Prelude.{ℕ, ◌+◌, ◌-◌, ◌≤◌, some, ◌++◌, Bytes, length, take, drop, ◌≡◌}
use wvstreams.BufferStore.Base.{Store}

-- the last `n` bytes of the queue, which begin at index `first`, are being written
pub record Contract {S : Type 0} (store : Store S) : Type 1 where
  pub IsValid : S → Type 0
  pub queue : S → Bytes
  pub Tail : S → ℕ → ℕ → Type 0
  pub length_queue : (s : S) → IsValid s → length (queue s) ≡ Store.used store s
  pub gettable_bound : (s : S) → IsValid s → Store.optgettable store s ≤ Store.used store s
  pub gettable_some : (s : S) → IsValid s → 1 ≤ Store.used store s → 1 ≤ Store.optgettable store s
  pub allocable_bound : (s : S) → IsValid s → Store.optallocable store s ≤ Store.free store s
  pub allocable_some : (s : S) → IsValid s → 1 ≤ Store.free store s → 1 ≤ Store.optallocable store s
  pub get_law :
      (s : S) (count : ℕ)
      → IsValid s
      → count ≤ Store.used store s
      → (t : S) × (Store.get store count s ≡ some (take count (queue s), t))
        × IsValid t
        × (queue t ≡ drop count (queue s))
  pub alloc_law :
      (s : S) (count : ℕ)
      → IsValid s
      → count ≤ Store.free store s
      → (first : ℕ) × (t : S) × (junk : Bytes) × (Store.alloc store count s ≡ some (first, t))
        × IsValid t
        × (queue t ≡ queue s ++ junk)
        × (length junk ≡ count)
        × Tail t first count
        × (Store.free store t + count ≡ Store.free store s)
  pub write_law :
      (s : S) (first : ℕ) (front junk new : Bytes)
      → IsValid s
      → Tail s first (length junk)
      → queue s ≡ front ++ junk
      → length new ≤ length junk
      → (t : S) × (Store.write store first new s ≡ some t)
        × IsValid t
        × (queue t ≡ front ++ (new ++ drop (length new) junk))
        × Tail t (first + length new) (length junk - length new)
        × (Store.free store t ≡ Store.free store s)
  pub unalloc_law :
      (s : S) (front junk : Bytes)
      → IsValid s
      → queue s ≡ front ++ junk
      → (t : S) × (Store.unalloc store (length junk) s ≡ some t) × IsValid t × (queue t ≡ front)
