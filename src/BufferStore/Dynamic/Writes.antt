-- ===== src/BufferStore/Dynamic/Writes.antt =====
-- fastput and put of the dynamic store: the bytes go behind those of all stores of the list.
use wvstreams.Prelude.{
  ℕ, zero, suc, ◌+◌, ◌≤◌, ◌<◌, true, false, Option, some, List, [], ◌∷◌, ◌++◌, append_assoc,
  append-nil, Bytes, length, length-append, take, drop, drop-length, take_rest, ltb, ◌==◌, ◌≡◌,
  refl, sym, subst, ap, ◌∙◌, arith, Bool-cases, inl, inr,
}
use wvstreams.BufferStore.Base.{fastput, put_pieces, put}
use wvstreams.BufferStore.Base.Puts.{piece, piece_some, length-left, put_step, put_nothing}
use wvstreams.BufferStore.Circular
use wvstreams.BufferStore.Circular.{WvCircularBufStore}
use wvstreams.BufferStore.Circular.State.{queue, length-queue}
use wvstreams.BufferStore.Circular.State as State
use wvstreams.BufferStore.Circular.Implements.{write_lem}
use wvstreams.BufferStore.Circular.Implements.Allocs.{Tail, alloc_lem}
use wvstreams.BufferStore.Linked.{WvLinkedBufferStore, Sizes, newbuffer}
use wvstreams.BufferStore.Dynamic.{
  last_free, alloc_last, write_last, alloc, write, optallocable, dyn_store,
}
use wvstreams.BufferStore.Linked.Coalesce.{queues, AllValid, none_valid, next_valid}
use wvstreams.BufferStore.Linked.Join.{newbuffer_lem}
use wvstreams.BufferStore.Linked.Reads.{IsValid}

-- the last store of a list is written behind its bytes
record PutsLast (list : List WvCircularBufStore) (new : Bytes) : Type 0 where
  first : ℕ
  head : WvCircularBufStore
  tail : List WvCircularBufStore
  after : List WvCircularBufStore
  allocated : alloc_last (length new) list ≡ some (first, head ∷ tail)
  written : write_last first new (head ∷ tail) ≡ some after
  valid : AllValid after
  bytes_after : queues after ≡ queues list ++ new

put_one :
    (buf : WvCircularBufStore) (new : Bytes)
    → State.IsValid buf
    → length new ≤ Circular.free buf
    → PutsLast (buf ∷ []) new
unfolding alloc_last write_last
put_one buf new v h =
    let a = alloc_lem buf (length new) v h in
    let w =
      write_lem a.state a.first (queue buf) a.junk new a.valid
        (subst (Tail a.state a.first) (sym a.size) a.tail) a.longer (omega (arith, a.size)) in
    let none_left : drop (length new) a.junk ≡ [] =
      ap (λ n. drop n a.junk) (sym a.size) ∙ drop-length a.junk in
    record {
      first = a.first;
      head = a.state;
      tail = [];
      after = w.state ∷ [];
      allocated = rw a.ran refl;
      written = rw w.ran refl;
      valid = next_valid w.valid none_valid;
      bytes_after =
          append-nil (queue w.state)
          ∙ w.written
          ∙ rw none_left (ap (λ q. queue buf ++ q) (append-nil new))
          ∙ ap (λ q. q ++ new) (sym (append-nil (queue buf)));
    }

put_last :
    (buf : WvCircularBufStore) (rest : List WvCircularBufStore) (new : Bytes)
    → AllValid (buf ∷ rest)
    → length new ≤ last_free (buf ∷ rest)
    → PutsLast (buf ∷ rest) new
unfolding alloc_last write_last last_free
put_last buf [] new (next_valid v r) h = put_one buf new v h
put_last buf (next ∷ rest) new (next_valid v r) h =
    let p = put_last next rest new r h in
    record {
      first = p.first;
      head = buf;
      tail = p.head ∷ p.tail;
      after = buf ∷ p.after;
      allocated = rw p.allocated refl;
      written = rw p.written refl;
      valid = next_valid v p.valid;
      bytes_after =
          ap (λ q. queue buf ++ q) p.bytes_after
          ∙ sym (append_assoc (queue buf) (queue next ++ queues rest) new);
    }

-- a list with a new store at its end
last_free-append :
    (list : List WvCircularBufStore) (buf : WvCircularBufStore)
    → last_free (list ++ buf ∷ []) ≡ Circular.free buf
unfolding last_free
last_free-append [] buf = refl
last_free-append (b ∷ []) buf = refl
last_free-append (b ∷ next ∷ rest) buf = last_free-append (next ∷ rest) buf

queues-append :
    (list : List WvCircularBufStore) (buf : WvCircularBufStore)
    → queue buf ≡ []
    → queues (list ++ buf ∷ []) ≡ queues list
queues-append [] buf h = append-nil (queue buf) ∙ h
queues-append (b ∷ rest) buf h = ap (λ q. queue b ++ q) (queues-append rest buf h)

append-AllValid :
    (list : List WvCircularBufStore) (buf : WvCircularBufStore)
    → AllValid list
    → State.IsValid buf
    → AllValid (list ++ buf ∷ [])
append-AllValid [] buf none_valid v = next_valid v none_valid
append-AllValid (b ∷ rest) buf (next_valid w r) v = next_valid w (append-AllValid rest buf r v)

-- the list on which alloc works
put_room :
    (list : List WvCircularBufStore) (new : Bytes)
    → AllValid list
    → 1 ≤ length new
    → length new ≤ last_free list
    → PutsLast list new
unfolding last_free
put_room [] new v h k = absurd (omega (arith, h, k))
put_room (buf ∷ rest) new v h k = put_last buf rest new v k

-- an operation that appends bytes to those of a linked store
pub record Extends (s : WvLinkedBufferStore) (new : Bytes) (o : Option WvLinkedBufferStore)
    : Type 0 where
  pub state : WvLinkedBufferStore
  pub ran : o ≡ some state
  pub valid : IsValid state
  pub bytes_after : queues state.list ≡ queues s.list ++ new

module _ (sizes : Sizes) (s : WvLinkedBufferStore) (new : Bytes) (v : IsValid s)
    (h : 1 ≤ length new) where
  some_new : (length new == 0) ≡ false
  some_new = ground (arith, h)

  extended : List WvCircularBufStore → WvLinkedBufferStore
  extended list = record s { list = list; totalused = s.totalused + length new }

  counted :
      (list : List WvCircularBufStore)
      → queues list ≡ queues s.list ++ new
      → s.totalused + length new ≡ length (queues list)
  counted list e = omega (arith, ap length e, length-append {0} (queues s.list) new, v.counted)

  -- The last store has room.
  in_last :
      ltb (last_free s.list) (length new) ≡ false
      → PutsLast s.list new
      → Extends s new (fastput (dyn_store sizes) new s)
  unfolding fastput alloc write extended
  in_last e p = record {
    state = extended p.after;
    ran = rw (some_new, e, p.allocated) (rw p.written refl);
    valid = record { stores = p.valid; counted = counted p.after p.bytes_after };
    bytes_after = p.bytes_after;
  }

  -- A new store is linked in behind it.
  in_new :
      ltb (last_free s.list) (length new) ≡ true
      → queues (s.list ++ newbuffer sizes s.totalused (length new) ∷ []) ≡ queues s.list
      → PutsLast (s.list ++ newbuffer sizes s.totalused (length new) ∷ []) new
      → Extends s new (fastput (dyn_store sizes) new s)
  unfolding fastput alloc write extended
  in_new e same p =
      let after : queues p.after ≡ queues s.list ++ new = p.bytes_after ∙ ap (λ q. q ++ new) same in
      record {
        state = extended p.after;
        ran = rw (some_new, e, p.allocated) (rw p.written refl);
        valid = record { stores = p.valid; counted = counted p.after after };
        bytes_after = after;
      }

  fastput_some : 1 ≤ sizes.granularity → Extends s new (fastput (dyn_store sizes) new s)
  fastput_some g = elim (Bool-cases (ltb (last_free s.list) (length new))) [
    | inl e ↦
        let (valid, nothing, room) = newbuffer_lem sizes s.totalused (length new) g h in
        let buf : WvCircularBufStore = newbuffer sizes s.totalused (length new) in
        in_new e (queues-append s.list buf nothing) (
          put_room (s.list ++ buf ∷ []) new (append-AllValid s.list buf v.stores valid) h
            (omega (arith, room, last_free-append s.list buf)))
    | inr e ↦ in_last e (put_room s.list new v.stores h (ground (arith, e)))
  ]

fastput_nothing :
    (sizes : Sizes) (s : WvLinkedBufferStore) → fastput (dyn_store sizes) [] s ≡ some s
unfolding fastput alloc write
fastput_nothing sizes s = refl

-- fastput on a dynamic store puts any number of bytes behind the others.
pub dyn_fastput :
    (sizes : Sizes) (s : WvLinkedBufferStore) (new : Bytes)
    → 1 ≤ sizes.granularity
    → IsValid s
    → Extends s new (fastput (dyn_store sizes) new s)
dyn_fastput sizes s [] g v = record {
  state = s;
  ran = fastput_nothing sizes s;
  valid = v;
  bytes_after = sym (append-nil (queues s.list));
}
dyn_fastput sizes s (x ∷ new) g v = fastput_some sizes s (x ∷ new) v (omega arith) g

allocable_some : (s : WvLinkedBufferStore) → 1 ≤ optallocable s
unfolding optallocable
allocable_some s = ground arith

dyn_pieces :
    (pieces : ℕ) (sizes : Sizes) (s : WvLinkedBufferStore) (new : Bytes)
    → 1 ≤ sizes.granularity
    → IsValid s
    → length new < pieces
    → Extends s new (put_pieces (dyn_store sizes) pieces new s)
dyn_pieces zero sizes s new g v f = absurd (omega (arith, f))
dyn_pieces (suc pieces) sizes s [] g v f = record {
  state = s;
  ran = put_nothing (dyn_store sizes) pieces s;
  valid = v;
  bytes_after = sym (append-nil (queues s.list));
}
dyn_pieces (suc pieces) sizes s (x ∷ new) g v f =
    let some_new : 1 ≤ length (x ∷ new) = omega arith in
    let room = allocable_some s in
    let n : ℕ = piece (dyn_store sizes) (x ∷ new) s in
    let w = dyn_fastput sizes s (take n (x ∷ new)) g v in
    let r = dyn_pieces pieces sizes w.state (drop n (x ∷ new)) g w.valid (
      omega (
        arith,
        f,
        length-left (dyn_store sizes) (x ∷ new) s some_new room,
        piece_some (dyn_store sizes) (x ∷ new) s some_new room,
      )) in
    record {
      state = r.state;
      ran = put_step (dyn_store sizes) pieces (x ∷ new) s some_new room ∙ rw w.ran r.ran;
      valid = r.valid;
      bytes_after =
          r.bytes_after
          ∙ ap (λ q. q ++ drop n (x ∷ new)) w.bytes_after
          ∙ append_assoc (queues s.list) (take n (x ∷ new)) (drop n (x ∷ new))
          ∙ ap (λ q. queues s.list ++ q) (take_rest n (x ∷ new));
    }

-- So does put, in pieces of which each fills up the last store.
pub dyn_put :
    (sizes : Sizes) (s : WvLinkedBufferStore) (new : Bytes)
    → 1 ≤ sizes.granularity
    → IsValid s
    → Extends s new (put (dyn_store sizes) new s)
unfolding put
dyn_put sizes s new g v = dyn_pieces (length new + 1) sizes s new g v (omega arith)
