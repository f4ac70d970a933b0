-- ===== src/UniConf/Gen.antt =====
-- uniconf/uniconfgen.cc: how a generator holds its notifications back and passes them on. The
-- callbacks are the program's clients: a call of them is an entry of `dispatched`, and they call
-- nothing of the generator. `none` is the failed assertion of `unhold_delta`.
pub mod Deltas
use wvstreams.Prelude.{
  ◌>>=◌, ℕ, zero, suc, Bool, true, false, Option, none, some, List, [], ◌∷◌, ◌++◌, Bytes,
}
use wvstreams.UniConf.Key.{Key}

-- a key and its new value; a null value says that the key is gone
abbrev pub Delta : Type 0
Delta = Key × Option Bytes

pub record Gen : Type 0 where
  pub hold_nesting : ℕ
  pub deltas : List Delta
  pub dispatched : List Delta

abbrev pub new_gen : Gen
new_gen = record { hold_nesting = 0; deltas = []; dispatched = [] }

unfoldable pub dispatch_delta : Delta → Gen → Gen
dispatch_delta d g = record g { dispatched = g.dispatched ++ d ∷ [] }

-- the loop takes the first delta off and dispatches it, until there is none
unfoldable pub flush_loop : List Delta → Gen → Gen
flush_loop [] g = record g { deltas = [] }
flush_loop (d ∷ ds) g = flush_loop ds (dispatch_delta d (record g { deltas = ds }))

unfoldable pub flush_delta : Gen → Gen
flush_delta g = flush_loop g.deltas g

unfoldable pub clear_delta : Gen → Gen
clear_delta g = record g { deltas = [] }

unfoldable pub hold_delta : Gen → Gen
hold_delta g = record g { hold_nesting = suc g.hold_nesting }

abbrev unhold_from : ℕ → Gen → Option Gen
unhold_from zero g = none
unhold_from (suc zero) g = some (record (flush_delta g) { hold_nesting = 0 })
unhold_from (suc (suc n)) g = some (record g { hold_nesting = suc n })

unfoldable pub unhold_delta : Gen → Option Gen
unhold_delta g = unhold_from g.hold_nesting g

abbrev delta_from : ℕ → Delta → Gen → Option Gen
delta_from zero d g = some (dispatch_delta d g)
delta_from (suc n) d g = do
  let held = hold_delta g
  unhold_delta (record held { deltas = held.deltas ++ d ∷ [] })

unfoldable pub delta : Delta → Gen → Option Gen
delta d g = delta_from g.hold_nesting d g

-- several calls of `delta`
unfoldable pub delta_all : List Delta → Gen → Option Gen
delta_all [] g = some g
delta_all (d ∷ ds) g = do g' ← delta d g; delta_all ds g'
