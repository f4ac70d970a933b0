-- ===== src/BufferStore/Base.antt =====
-- utils/wvbufferstore.cc: the methods of WvBufStore that are not virtual, over the virtual ones. A pointer
-- to write at is an index that `alloc` returns; what `get` returns a pointer to is the bytes. `none` is a
-- failed assertion. The two stores of a merge are different objects.
pub mod Laws
pub mod Puts
pub mod Merges
use wvstreams.Prelude.{
  ◌>>=◌, ℕ, zero, suc, ◌+◌, ◌-◌, Bool, true, false, Option, none, some, List, [], ◌∷◌, Bytes,
  length, take, drop, ltb, leb, leb, ◌==◌, if◌then◌else◌,
}
use wvstreams.Prelude.Int.{ℤ, pos, negsuc}

-- the virtual methods that the others call; `write` is memops.uninit_copy to an index
pub record Store (S : Type 0) : Type 0 where
  pub used : S → ℕ
  pub optgettable : S → ℕ
  pub free : S → ℕ
  pub optallocable : S → ℕ
  pub get : ℕ → S → Option (Bytes × S)
  pub alloc : ℕ → S → Option (ℕ × S)
  pub write : ℕ → Bytes → S → Option S
  pub unalloc : ℕ → S → Option S

-- peekable, of a store with this many used and ungettable bytes
unfoldable pub peekable : ℕ → ℕ → ℤ → ℕ
peekable used ungettable (pos zero) = used
peekable used ungettable (pos (suc o)) = used - suc o
peekable used ungettable (negsuc o) = if leb (o + 1) ungettable then o + 1 + used else 0

abbrev pub at_most : ℕ → ℕ → ℕ
at_most amount count = if ltb count amount then count else amount

module _ {S : Type 0} (store : Store S) where
  open store use {optgettable, optallocable, get, alloc, write}

  -- move: the loop asks for all bytes at once
  unfoldable pub move : ℕ → S → Option (Bytes × S)
  move count s = if count == 0 then some ([], s) else get count s

  unfoldable pub fastput : Bytes → S → Option S
  fastput new s = do (first, t) ← alloc (length new) s; write first new t

  -- put, in pieces; each takes something off what is to be written
  unfoldable pub put_pieces : ℕ → Bytes → S → Option S
  put_pieces zero new s = none
  put_pieces (suc pieces) new s =
      let room = optallocable s in
      let amount = at_most room (length new) in
      elim (length new == 0) [
        | true ↦ some s
        | false ↦ elim (room == 0) [
          | true ↦ none
          | false ↦ fastput (take amount new) s >>= put_pieces pieces (drop amount new)
        ]
      ]

  unfoldable pub put : Bytes → S → Option S
  put new s = put_pieces (length new + 1) new s

  -- `inavail` more bytes are got where none are left
  unfoldable pub refill_in : ℕ → Bytes → S → Option (Bytes × S)
  refill_in count indata instore =
      if length indata == 0
      then if optgettable instore == 0
        then none
        else get (at_most (optgettable instore) count) instore
      else some (indata, instore)

  -- `outavail` more bytes are allocated where none are left
  unfoldable pub refill_out : ℕ → ℕ → ℕ → S → Option ((ℕ × ℕ) × S)
  refill_out count outdata outavail s =
      if outavail == 0
      then if optallocable s == 0
        then none
        else (alloc (at_most (optallocable s) count) s >>= λ r.
            some ((r.0, at_most (optallocable s) count), r.1))
      else some ((outdata, outavail), s)

module _ {S T : Type 0} (source : Store S) (target : Store T) where
  -- A round of basicmerge behind the refills; `next` goes on with the loop.
  unfoldable pub copy_round :
      (ℕ → Bytes → ℕ → ℕ → S → T → Option (S × T)) → ℕ → Bytes → ℕ → ℕ → S → T → Option (S × T)
  copy_round next count indata outdata outavail instore t =
      let inavail = length indata in
      if ltb inavail outavail
      then (Store.write target outdata indata t >>= λ w.
          if count - inavail == 0
          then (Store.unalloc target (outavail - inavail) w >>= λ u. some (instore, u))
          else next (count - inavail) [] (outdata + inavail) (outavail - inavail) instore w)
      else (Store.write target outdata (take outavail indata) t >>= λ w.
          if count - outavail == 0
          then some (instore, w)
          else next (count - outavail) (drop outavail indata) outdata 0 instore w)

  -- The loop of basicmerge. Each round copies a byte or more, so that `count` rounds are enough.
  unfoldable pub merge_loop : ℕ → ℕ → Bytes → ℕ → ℕ → S → T → Option (S × T)
  merge_loop zero count indata outdata outavail instore t = none
  merge_loop (suc rounds) count indata outdata outavail instore t = do
    (indata', instore') ← refill_in source count indata instore
    ((outdata', outavail'), t') ← refill_out target count outdata outavail t
    copy_round (merge_loop rounds) count indata' outdata' outavail' instore' t'

  unfoldable pub basicmerge : ℕ → S → T → Option (S × T)
  basicmerge count instore t =
      if count == 0 then some (instore, t) else merge_loop count count [] 0 0 instore t
