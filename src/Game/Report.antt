-- ===== src/Game/Report.antt =====
-- engine.go: what a game reports: the final table and the snapshot for the transport layer.
pub mod Table
use noitu.Prelude.{
  ℕ, suc, ◌+◌, Bool, false, List, [], ◌∷◌, ◌++◌, lookup_or, length, null, if◌then◌else◌, reverse,
  get_or,
}
use noitu.Game.State.{PlayerId, EndReason, end_none, Standing, State}
use noitu.Game.Engine.{Engine, turn, score, chain_length}

unfoldable pub out_reason_of : Engine → PlayerId → EndReason
out_reason_of e p = lookup_or end_none p e.out_reason

unfoldable pub eliminated_count : Engine → ℕ
eliminated_count e = length e.out_order

-- The loop of `Standings` over the players who went out, last one first; `placed` rows are above.
unfoldable pub table_from : Engine → ℕ → List PlayerId → List Standing
table_from e placed [] = []
table_from e placed (p ∷ ps) =
    record { player = p; score = score e p; rank = placed + 1; reason = out_reason_of e p }
    ∷ table_from e (placed + 1) ps

unfoldable pub standings : Engine → List Standing
unfolding table_from
standings e =
    let top : Standing = record {
      player = e.winner;
      score = score e e.winner;
      rank = 1;
      reason = end_none;
    } in
    if null e.winner
    then table_from e 0 (reverse e.out_order)
    else top ∷ table_from e 1 (reverse e.out_order)

-- The map from seats to flags.
unfoldable pub flags : List PlayerId → List Bool → List (PlayerId × Bool)
flags [] alive = []
flags (p ∷ ps) [] = []
flags (p ∷ ps) (b ∷ bs) = (p, b) ∷ flags ps bs

unfoldable pub snapshot : Engine → State
snapshot e = record {
  current = e.current;
  turn = turn e;
  deadline = e.deadline;
  scores = e.scores;
  alive = flags e.players e.alive;
  eliminated = e.out_order;
  chain_length = chain_length e;
  over = e.over;
  winner = e.winner;
  end_reason = e.end_reason;
  standings = if e.over then standings e else [];
}
