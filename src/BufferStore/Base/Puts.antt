-- ===== src/BufferStore/Base/Puts.antt =====
-- fastput and put append to the queue, over any store that keeps the contract.
use wvstreams.Prelude.{
  ◌>>=◌, ℕ, zero, suc, ◌+◌, ◌-◌, ◌≤◌, ◌<◌, true, false, Option, none, some, [], ◌∷◌, ◌++◌,
  append_assoc, append-nil, Bytes, length, take, drop, drop-length, ◌==◌, ◌≡◌, refl, sym, subst, ap,
  ◌∙◌, arith, Bool-cases, inl, inr, length-take, length-drop, take_rest,
}
use wvstreams.BufferStore.Base.{Store, at_most, fastput, put_pieces, put}
use wvstreams.BufferStore.Base.Laws.{Contract}

pub at_most_left : (a b : ℕ) → at_most a b ≤ a
at_most_left a b = ground arith

pub at_most_right : (a b : ℕ) → at_most a b ≤ b
at_most_right a b = ground arith

pub at_most_some : (a b : ℕ) → 1 ≤ a → 1 ≤ b → 1 ≤ at_most a b
at_most_some a b h k = ground (arith, h, k)

-- the rounds of `put`, over any store
module _ {S : Type 0} (store : Store S) where
  open store use {optallocable}

  pub put_nothing : (pieces : ℕ) (s : S) → put_pieces store (suc pieces) [] s ≡ some s
  unfolding put_pieces
  put_nothing pieces s = refl

  -- what one round of `put` writes
  abbrev pub piece : Bytes → S → ℕ
  piece new s = at_most (optallocable s) (length new)

  pub put_step :
      (pieces : ℕ) (new : Bytes) (s : S)
      → 1 ≤ length new
      → 1 ≤ optallocable s
      → put_pieces store (suc pieces) new s ≡ (
          fastput store (take (piece new s) new) s
          >>= put_pieces store pieces (drop (piece new s) new))
  unfolding put_pieces
  put_step pieces new s h r =
      let some_new : (length new == 0) ≡ false = ground (arith, h) in
      let some_room : (optallocable s == 0) ≡ false = ground (arith, r) in
      rw (some_new, put_pieces) (rw (some_room) refl)

  pub put_stop :
      (pieces : ℕ) (new : Bytes) (s : S)
      → 1 ≤ length new
      → optallocable s ≡ 0
      → put_pieces store (suc pieces) new s ≡ none
  unfolding put_pieces
  put_stop pieces new s h r =
      let some_new : (length new == 0) ≡ false = ground (arith, h) in
      let no_room : (optallocable s == 0) ≡ true = ground (arith, r) in
      rw (some_new, put_pieces) (rw (no_room) refl)

  -- what is written and what is left
  module _ (new : Bytes) (s : S) (h : 1 ≤ length new) (room : 1 ≤ optallocable s) where
    pub piece_some : 1 ≤ piece new s
    piece_some = at_most_some (optallocable s) (length new) room h

    pub piece_part : piece new s ≤ length new
    piece_part = at_most_right (optallocable s) (length new)

    pub piece_fits : piece new s ≤ optallocable s
    piece_fits = at_most_left (optallocable s) (length new)

    pub length-piece : length (take (piece new s) new) ≡ piece new s
    length-piece = length-take (piece new s) new piece_part

    pub length-left : length (drop (piece new s) new) ≡ length new - piece new s
    length-left = length-drop (piece new s) new

module _ {S : Type 0} (store : Store S) (c : Contract store) where
  open store use {free, optallocable}
  open c use {IsValid, queue}

  -- an operation that appends bytes to the queue
  pub record Appends (s : S) (new : Bytes) (o : Option S) : Type 0 where
    pub state : S
    pub ran : o ≡ some state
    pub valid : IsValid state
    pub queue_after : queue state ≡ queue s ++ new
    pub less_free : free state + length new ≡ free s

  pub fastput_lem :
      (s : S) (new : Bytes) → IsValid s → length new ≤ free s → Appends s new (fastput store new s)
  unfolding fastput
  fastput_lem s new v h =
      let (first, t, junk, ran, valid, longer, size, tail, less) = c.alloc_law s (length new) v h in
      let (w, wrote, valid', written, tail', same) =
        c.write_law t first (queue s) junk new valid (subst (c.Tail t first) (sym size) tail) longer
          (omega (arith, size)) in
      record {
        state = w;
        ran = rw (ran, wrote) refl;
        valid = valid';
        queue_after =
            written
            ∙ ap (λ r. queue s ++ (new ++ r)) (ap (λ n. drop n junk) (sym size) ∙ drop-length junk)
            ∙ ap (◌++◌ (queue s)) (append-nil new);
        less_free = ap (λ n. n + length new) same ∙ less;
      }

  written :
      (new : Bytes) (s : S)
      → 1 ≤ length new
      → 1 ≤ optallocable s
      → IsValid s
      → Appends s (take (piece store new s) new) (fastput store (take (piece store new s) new) s)
  written new s h room v = fastput_lem s (take (piece store new s) new) v (
      omega (
        arith,
        length-piece store new s h room,
        piece_fits store new s h room,
        c.allocable_bound s v,
      ))

  -- A piece, and then what is left, are the whole.
  then_more :
      (pieces : ℕ) (new : Bytes) (s : S)
      → 1 ≤ length new
      → 1 ≤ optallocable s
      → (w : Appends s
          (take (piece store new s) new)
          (fastput store (take (piece store new s) new) s))
      → Appends w.state
          (drop (piece store new s) new)
          (put_pieces store pieces (drop (piece store new s) new) w.state)
      → Appends s new (put_pieces store (suc pieces) new s)
  then_more pieces new s h room w r = record {
    state = r.state;
    ran = put_step store pieces new s h room ∙ rw w.ran r.ran;
    valid = r.valid;
    queue_after =
        r.queue_after
        ∙ ap (λ q. q ++ drop (piece store new s) new) w.queue_after
        ∙ append_assoc (queue s) (take (piece store new s) new) (drop (piece store new s) new)
        ∙ ap (◌++◌ (queue s)) (take_rest (piece store new s) new);
    less_free = omega (
      arith,
      r.less_free,
      w.less_free,
      length-piece store new s h room,
      length-left store new s h room,
      piece_part store new s h room,
    );
  }

  put_pieces-Appends :
      (pieces : ℕ) (new : Bytes) (s : S)
      → length new < pieces
      → IsValid s
      → length new ≤ free s
      → Appends s new (put_pieces store pieces new s)
  put_pieces-Appends zero new s f v h = absurd (omega arith)
  put_pieces-Appends (suc pieces) [] s f v h = record {
    state = s;
    ran = put_nothing store pieces s;
    valid = v;
    queue_after = sym (append-nil (queue s));
    less_free = omega arith;
  }
  put_pieces-Appends (suc pieces) (x ∷ new) s f v h =
      let some_new : 1 ≤ length (x ∷ new) = omega arith in
      let room = c.allocable_some s v (omega (arith, h)) in
      let w = written (x ∷ new) s some_new room v in
      let left = length-left store (x ∷ new) s some_new room in
      let taken = piece_some store (x ∷ new) s some_new room in
      then_more pieces (x ∷ new) s some_new room w (
        put_pieces-Appends pieces (drop (piece store (x ∷ new) s) (x ∷ new)) w.state
          (omega (arith, f, left, taken)) w.valid
          (omega (arith, h, left, w.less_free, length-piece store (x ∷ new) s some_new room)))

  put_pieces_full :
      (pieces : ℕ) (new : Bytes) (s : S)
      → length new < pieces
      → IsValid s
      → free s < length new
      → put_pieces store pieces new s ≡ none
  put_pieces_full zero new s f v h = absurd (omega arith)
  put_pieces_full (suc pieces) new s f v h = elim (Bool-cases (optallocable s == 0)) [
    | inl e ↦ put_stop store pieces new s (omega (arith, h)) (ground (arith, e))
    | inr e ↦
        let some_new : 1 ≤ length new = omega (arith, h) in
        let room : 1 ≤ optallocable s = ground (arith, e) in
        let w = written new s some_new room v in
        let left = length-left store new s some_new room in
        let taken = piece_some store new s some_new room in
        put_step store pieces new s some_new room
        ∙ rw w.ran (
            put_pieces_full pieces (drop (piece store new s) new) w.state
              (omega (arith, f, left, taken)) w.valid
              (omega (
                arith,
                h,
                left,
                w.less_free,
                length-piece store new s some_new room,
                c.allocable_bound s v,
                piece_fits store new s some_new room,
              )))
  ]

  -- put appends the bytes given to the queue where they fit.
  pub put_lem :
      (s : S) (new : Bytes) → IsValid s → length new ≤ free s → Appends s new (put store new s)
  unfolding put
  put_lem s new v h = put_pieces-Appends (length new + 1) new s (omega arith) v h

  -- Where they do not fit, an assertion fails.
  put_refuses : (s : S) (new : Bytes) → IsValid s → free s < length new → put store new s ≡ none
  unfolding put
  put_refuses s new v h = put_pieces_full (length new + 1) new s (omega arith) v h
