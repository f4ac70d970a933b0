-- ===== src/BufferStore/InPlace/Implements.antt =====
-- The store in one array keeps the contract of a store.
use wvstreams.Prelude.{
  ℕ, ◌+◌, ◌-◌, ◌≤◌, false, some, ◌++◌, append_assoc, Bytes, length, length-append, take, drop, ltb,
  ◌≡◌, refl, sym, ap, ◌∙◌, arith, take_rest, take_plus, take-take, take-drop, take-append_length,
  drop-append, drop-append_at, length-take, length-drop, drop-drop,
}
use wvstreams.BufferStore.Base.Laws.{Contract}
use native.Mathlib.Nat.{le_refl}
use wvstreams.BufferStore.Memory.{memcpy}
use wvstreams.BufferStore.Memory.Regions.{memcpy_region}
use wvstreams.BufferStore.InPlace.{
  WvInPlaceBufStore, xsize, used, free, get, alloc, write, unalloc, store,
}

pub record IsValid (s : WvInPlaceBufStore) : Type 0 where
  pub ordered : s.readidx ≤ s.writeidx
  pub inside : s.writeidx ≤ xsize s

abbrev pub queue : WvInPlaceBufStore → Bytes
queue s = take (used s) (drop s.readidx s.bytes)

-- The last `n` bytes begin at index `first`.
pub record Tail (s : WvInPlaceBufStore) (first n : ℕ) : Type 0 where
  pub last : first + n ≡ s.writeidx
  pub read_before : s.readidx ≤ first

pub length-queue : (s : WvInPlaceBufStore) → IsValid s → length (queue s) ≡ used s
length-queue s v =
    length-take (used s) (drop s.readidx s.bytes)
      (omega (arith, v.ordered, v.inside, length-drop s.readidx s.bytes))

pub get_lem :
    (s : WvInPlaceBufStore) (count : ℕ)
    → IsValid s
    → count ≤ used s
    → (t : WvInPlaceBufStore) × (get count s ≡ some (take count (queue s), t))
      × IsValid t
      × (queue t ≡ drop count (queue s))
unfolding get
get_lem s count v h =
    let enough : ltb (used s) count ≡ false = ground (arith, h) in
    (
      record s { readidx = s.readidx + count },
      rw (enough) (
          ap (λ b. some (b, record s { readidx = s.readidx + count }))
            (sym (take-take count (used s) (drop s.readidx s.bytes) h))),
      record { ordered = omega (arith, h, v.ordered); inside = v.inside },
      ap (take (s.writeidx - (s.readidx + count))) (sym (drop-drop count s.readidx s.bytes))
          ∙ take-drop (s.writeidx - (s.readidx + count)) count (drop s.readidx s.bytes)
          ∙ ap (λ n. drop count (take n (drop s.readidx s.bytes))) (omega (arith, h)),
    )

pub alloc_lem :
    (s : WvInPlaceBufStore) (count : ℕ)
    → IsValid s
    → count ≤ free s
    → (first : ℕ) × (t : WvInPlaceBufStore) × (junk : Bytes) × (alloc count s ≡ some (first, t))
      × IsValid t
      × (queue t ≡ queue s ++ junk)
      × (length junk ≡ count)
      × Tail t first count
      × (free t + count ≡ free s)
unfolding alloc
alloc_lem s count v h =
    let enough : ltb (xsize s - s.writeidx) count ≡ false = ground (arith, h) in
    (
      s.writeidx,
      record s { writeidx = s.writeidx + count },
      take count (drop (used s) (drop s.readidx s.bytes)),
      rw (enough) refl,
      record { ordered = omega (arith, v.ordered); inside = omega (arith, v.inside, h) },
      ap (λ n. take n (drop s.readidx s.bytes)) (omega (arith, v.ordered))
          ∙ take_plus (used s) count (drop s.readidx s.bytes),
      length-take count (drop (used s) (drop s.readidx s.bytes)) (
          omega (
            arith,
            h,
            v.ordered,
            v.inside,
            length-drop (used s) (drop s.readidx s.bytes),
            length-drop s.readidx s.bytes,
          )),
      record { last = refl; read_before = v.ordered },
      omega (arith, h),
    )

-- The bytes are those before the read index, the queue's, and those behind the write index.
cut :
    (s : WvInPlaceBufStore)
    → IsValid s
    → s.bytes ≡ take s.readidx s.bytes ++ (queue s ++ drop s.writeidx s.bytes)
cut s v =
    sym (take_rest s.readidx s.bytes)
    ∙ ap (◌++◌ (take s.readidx s.bytes)) (
        sym (take_rest (used s) (drop s.readidx s.bytes))
        ∙ ap (◌++◌ (queue s)) (
            drop-drop (used s) s.readidx s.bytes
            ∙ ap (λ n. drop n s.bytes) (omega (arith, v.ordered))))

-- the same with a queue of a given form
queue_between :
    (before q behind : Bytes) (readidx writeidx : ℕ)
    → length before ≡ readidx
    → readidx + length q ≡ writeidx
    → take (writeidx - readidx) (drop readidx (before ++ (q ++ behind))) ≡ q
queue_between before q behind readidx writeidx e f =
    ap (take (writeidx - readidx)) (drop-append_at readidx before (q ++ behind) (sym e))
    ∙ ap (λ n. take n (q ++ behind)) (omega (arith, f))
    ∙ take-append_length q behind

-- the array when `new` is written over the start of `junk`
abbrev rewritten : WvInPlaceBufStore → Bytes → Bytes → Bytes → Bytes
rewritten s front junk new =
    take s.readidx s.bytes
    ++ ((front ++ (new ++ drop (length new) junk)) ++ drop s.writeidx s.bytes)

module _ (s : WvInPlaceBufStore) (first : ℕ) (front junk new : Bytes) (v : IsValid s)
    (t : Tail s first (length junk)) (e : queue s ≡ front ++ junk)
    (h : length new ≤ length junk) where
  read_size : length (take s.readidx s.bytes) ≡ s.readidx
  read_size = length-take s.readidx s.bytes (omega (arith, v.ordered, v.inside))

  whole : used s ≡ length front + length junk
  whole = sym (length-queue s v) ∙ ap length e ∙ length-append front junk

  rewritten_size : length (rewritten s front junk new) ≡ xsize s
  rewritten_size = omega (
    arith,
    whole,
    read_size,
    v.ordered,
    v.inside,
    h,
    length-append {0} (take s.readidx s.bytes)
        ((front ++ (new ++ drop (length new) junk)) ++ drop s.writeidx s.bytes),
    length-append {0} (front ++ (new ++ drop (length new) junk)) (drop s.writeidx s.bytes),
    length-append {0} front (new ++ drop (length new) junk),
    length-append {0} new (drop (length new) junk),
    length-drop (length new) junk,
    length-drop s.writeidx s.bytes,
  )

  wrote : memcpy s.bytes first new ≡ some (rewritten s front junk new)
  wrote =
      let before : Bytes = take s.readidx s.bytes in
      let behind : Bytes = drop s.writeidx s.bytes in
      let place : first ≡ length (before ++ front) =
        omega (arith, whole, read_size, t.last, v.ordered, length-append {0} before front) in
      let array : s.bytes ≡ (before ++ front) ++ (junk ++ behind) =
        cut s v ∙ ap (λ q. before ++ (q ++ behind)) e ∙ simp append_assoc in
      ap (λ d. memcpy d first new) array
      ∙ ap (λ n. memcpy ((before ++ front) ++ (junk ++ behind)) n new) place
      ∙ memcpy_region (before ++ front) (junk ++ behind) new
          (omega (arith, h, length-append {0} junk behind))
      ∙ ap (λ r. some ((before ++ front) ++ (new ++ r))) (drop-append (length new) junk behind h)
      ∙ ap some (simp append_assoc)

  pub write_lem :
      (t' : WvInPlaceBufStore) × (write first new s ≡ some t')
      × IsValid t'
      × (queue t' ≡ front ++ (new ++ drop (length new) junk))
      × Tail t' (first + length new) (length junk - length new)
      × (free t' ≡ free s)
  unfolding write
  write_lem = (
    record s { bytes = rewritten s front junk new },
    rw (wrote) refl,
    record { ordered = v.ordered; inside = omega (arith, rewritten_size, v.inside) },
    queue_between (take s.readidx s.bytes) (front ++ (new ++ drop (length new) junk))
        (drop s.writeidx s.bytes) s.readidx s.writeidx read_size
        (omega (
          arith,
          whole,
          v.ordered,
          h,
          length-append {0} front (new ++ drop (length new) junk),
          length-append {0} new (drop (length new) junk),
          length-drop (length new) junk,
        )),
    record { last = omega (arith, t.last, h); read_before = omega (arith, t.read_before) },
    omega (arith, rewritten_size),
  )

pub unalloc_lem :
    (s : WvInPlaceBufStore) (front junk : Bytes)
    → IsValid s
    → queue s ≡ front ++ junk
    → (t : WvInPlaceBufStore) × (unalloc (length junk) s ≡ some t) × IsValid t × (queue t ≡ front)
unfolding unalloc
unalloc_lem s front junk v e =
    let whole : used s ≡ length front + length junk =
      sym (length-queue s v) ∙ ap length e ∙ length-append front junk in
    let known : ltb (used s) (length junk) ≡ false = ground (arith, whole) in
    (
      record s { writeidx = s.writeidx - length junk },
      rw (known) refl,
      record { ordered = omega (arith, whole, v.ordered); inside = omega (arith, v.inside) },
      ap (λ n. take n (drop s.readidx s.bytes)) (omega (arith, whole))
          ∙ sym (take-take (length front) (used s) (drop s.readidx s.bytes) (omega (arith, whole)))
          ∙ ap (take (length front)) e
          ∙ take-append_length front junk,
    )

abbrev pub contract : Contract store
contract = record {
  IsValid = IsValid;
  queue = queue;
  Tail = Tail;
  length_queue = length-queue;
  gettable_bound = λ s v. le_refl (used s);
  gettable_some = λ s v h. h;
  allocable_bound = λ s v. le_refl (free s);
  allocable_some = λ s v h. h;
  get_law = get_lem;
  alloc_law = alloc_lem;
  write_law = write_lem;
  unalloc_law = unalloc_lem;
}
