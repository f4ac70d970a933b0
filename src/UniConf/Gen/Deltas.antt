-- ===== src/UniConf/Gen/Deltas.antt =====
-- Holding notifications back changes when they are passed on, and not what is passed on.
use wvstreams.Prelude.{
  ◌>>=◌, ℕ, suc, some, List, [], ◌∷◌, ◌++◌, append_assoc, append-nil, ◌≡◌, refl, ap, ◌∙◌, arith,
}
use wvstreams.UniConf.Gen.{
  Delta, Gen, dispatch_delta, flush_loop, flush_delta, hold_delta, unhold_delta, delta, delta_all,
  ◌>>=◌,
}

flush_loop-eq :
    (ds : List Delta) (g : Gen)
    → flush_loop ds g ≡ record g { deltas = []; dispatched = g.dispatched ++ ds }
unfolding flush_loop dispatch_delta
flush_loop-eq [] g = rw (append-nil g.dispatched)
flush_loop-eq (d ∷ ds) g = flush_loop-eq ds _ ∙ rw (append_assoc g.dispatched (d ∷ []) ds)

-- under a hold a delta is queued
pub delta_held :
    (d : Delta) (g : Gen) (n : ℕ)
    → g.hold_nesting ≡ suc n
    → delta d g ≡ some (record g { deltas = g.deltas ++ d ∷ [] })
unfolding delta hold_delta unhold_delta
delta_held d g n h = ground arith

delta_free : (d : Delta) (g : Gen) → g.hold_nesting ≡ 0 → delta d g ≡ some (dispatch_delta d g)
unfolding delta
delta_free d g h = rw h

pub delta_all_held :
    (ds : List Delta) (g : Gen) (n : ℕ)
    → g.hold_nesting ≡ suc n
    → delta_all ds g ≡ some (record g { deltas = g.deltas ++ ds })
unfolding delta_all
delta_all_held [] g n h = rw append-nil
delta_all_held (d ∷ ds) g n h = rw (delta_held d g n h) (
    delta_all_held ds (record g { deltas = g.deltas ++ d ∷ [] }) n h
    ∙ rw (append_assoc g.deltas (d ∷ []) ds))

delta_all_free :
    (ds : List Delta) (g : Gen)
    → g.hold_nesting ≡ 0
    → delta_all ds g ≡ some (record g { dispatched = g.dispatched ++ ds })
unfolding delta_all
delta_all_free [] g h = rw append-nil
delta_all_free (d ∷ ds) g h = rw (delta_free d g h) (
    delta_all_free ds (dispatch_delta d g) (unfold dispatch_delta in h)
    ∙ unfold dispatch_delta in rw (append_assoc g.dispatched (d ∷ []) ds))

pub unhold_outermost :
    (ds : List Delta) (g : Gen)
    → g.hold_nesting ≡ 0
    → g.deltas ≡ []
    → unhold_delta (record (hold_delta g) { deltas = (hold_delta g).deltas ++ ds })
      ≡ some (record g { dispatched = g.dispatched ++ ds })
unfolding hold_delta unhold_delta flush_delta
unhold_outermost ds g h e =
    let flushed =
      flush_loop-eq (g.deltas ++ ds)
        (record g { hold_nesting = suc g.hold_nesting; deltas = g.deltas ++ ds }) in
    ground (arith, flushed)

-- On a generator that holds nothing back and has nothing queued: after `hold_delta` any number of
-- calls of `delta` dispatch nothing and queue all their notifications in order, with no failed
-- assertion; `unhold_delta` then dispatches them, and the state is that of a generator on which
-- the calls were made with nothing held back, which dispatches each at once, in the same order.
pub hold-unhold :
    (ds : List Delta) (g : Gen)
    → g.hold_nesting ≡ 0
    → g.deltas ≡ []
    → (delta_all ds (hold_delta g)
        ≡ some (record { hold_nesting = 1; deltas = ds; dispatched = g.dispatched }))
      × (delta_all ds g
          ≡ some (record { hold_nesting = 0; deltas = []; dispatched = g.dispatched ++ ds }))
      × ((delta_all ds (hold_delta g) >>= unhold_delta) ≡ delta_all ds g)
hold-unhold ds g h e =
    let held = delta_all_held ds (hold_delta g) g.hold_nesting (unfold hold_delta in refl) in
    let free = delta_all_free ds g h in
    (
      held ∙ unfold hold_delta in rw (h, e) refl,
      free ∙ rw (h, e) refl,
      rw (held, free) (unhold_outermost ds g h e),
    )

-- A hold inside a hold dispatches nothing at its end: the pair of calls around some notifications
-- leaves them queued as the notifications alone do.
pub hold-unhold_nested :
    (ds : List Delta) (g : Gen) (n : ℕ)
    → g.hold_nesting ≡ suc n
    → (delta_all ds (hold_delta g) >>= unhold_delta) ≡ delta_all ds g
hold-unhold_nested ds g n h =
    rw
      (
        delta_all_held ds (hold_delta g) (suc n) (unfold hold_delta in ap suc h),
        delta_all_held ds g n h,
      )
      (unfold hold_delta unhold_delta in ground arith)
