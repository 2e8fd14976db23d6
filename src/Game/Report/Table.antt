-- ===== src/Game/Report/Table.antt =====
-- The final table: one row for each player, ranked from 1 on.
use noitu.Prelude.{
  ℕ, suc, ◌+◌, ◌≤◌, ◌<◌, ◌≡◌, ◌≢◌, refl, sym, ◌∙◌, ap, true, false, List, [], ◌∷◌, reverse, map,
  arith, Text, same_iff, contains, contains-append, length, length-append, length-map, ◌⊎◌, get_or,
  null, if_split, Bool-cases, inl, inr,
}
use mathlib.Core.List.{reverse-append}
use noitu.Game.State.{PlayerId, Standing}
use noitu.Game.Engine.{Engine, turn}
use noitu.Game.Engine.Invariant.{IsValid}
use noitu.Game.Engine.Flags.{one_seat, count_true-set}
use noitu.Game.Report.{table_from, standings}

abbrev pub names : List Standing → List PlayerId
names rows = map (λ (r : Standing). r.player) rows

-- The rows are ranked one after the other from `n` on.
abbrev pub RankedFrom : ℕ → List Standing → Type 0
RankedFrom n [] = Unit
RankedFrom n (r ∷ rs) = (r.rank ≡ n) × RankedFrom (n + 1) rs

null→nil : (w : Text) → null w ≡ true → w ≡ []
null→nil [] h = refl
null→nil (c ∷ w) h = absurd (cc)

length-table_from :
    (e : Engine) (k : ℕ) (ps : List PlayerId) → length (table_from e k ps) ≡ length ps
unfolding table_from
length-table_from e k [] = refl
length-table_from e k (p ∷ ps) = ap suc (length-table_from e (k + 1) ps)

names-table_from : (e : Engine) (k : ℕ) (ps : List PlayerId) → names (table_from e k ps) ≡ ps
unfolding table_from
names-table_from e k [] = refl
names-table_from e k (p ∷ ps) = ap (λ t. p ∷ t) (names-table_from e (k + 1) ps)

table_from-RankedFrom :
    (e : Engine) (k : ℕ) (ps : List PlayerId) → RankedFrom (k + 1) (table_from e k ps)
unfolding table_from
table_from-RankedFrom e k [] = tt
table_from-RankedFrom e k (p ∷ ps) = (refl, table_from-RankedFrom e (k + 1) ps)

length-reverse : (ps : List PlayerId) → length (reverse ps) ≡ length ps
length-reverse [] = refl
length-reverse (p ∷ ps) =
    ap length (reverse-append (p ∷ []) ps)
    ∙ omega (arith, length-append (reverse ps) (p ∷ []), length-reverse ps)

contains-reverse : (ps : List PlayerId) (p : PlayerId) → contains (reverse ps) p ≡ contains ps p
unfolding contains
contains-reverse [] p = refl
contains-reverse (q ∷ ps) p =
    rw (reverse-append (q ∷ []) ps)
      (ground (arith, contains-append (reverse ps) (q ∷ []) p, contains-reverse ps p))

module _ (e : Engine) (v : IsValid e) (o : e.over ≡ true) (named : e.winner ≢ []) where
  standings-names : names (standings e) ≡ e.winner ∷ reverse e.out_order
  unfolding standings
  standings-names =
      if_split (λ rows. names rows ≡ e.winner ∷ reverse e.out_order) (null e.winner)
        (λ n. absurd (named (null→nil e.winner n)))
        (λ n. ap (λ t. e.winner ∷ t) (names-table_from e 1 (reverse e.out_order)))

  standings-RankedFrom : RankedFrom 1 (standings e)
  unfolding standings
  standings-RankedFrom =
      if_split (RankedFrom 1) (null e.winner) (λ n. absurd (named (null→nil e.winner n)))
        (λ n. (refl, table_from-RankedFrom e 1 (reverse e.out_order)))

  length-standings : length (standings e) ≡ length e.players
  length-standings =
      sym (length-map (λ (r : Standing). r.player) (standings e))
      ∙ ap length standings-names
      ∙ ground (arith, length-reverse e.out_order, v.table.all_placed, v.ended, in_game)
    where
      in_game : 1 ≤ e.alive_n
      in_game = omega (arith, v.table.counted, count_true-set e.alive e.turn_index v.to_act)

  -- A seat that is not in the list of departures is the winner's.
  winner_seat :
      (i : ℕ)
      → i < length e.players
      → (contains e.out_order (get_or e.players i []) ≡ true) ⊎ (get_or e.players i [] ≡ e.winner)
  unfolding turn
  winner_seat i h = elim (Bool-cases (get_or e.alive i false)) [
    | inl a ↦
        let here =
          one_seat e.alive i e.turn_index (ground (arith, v.table.counted, v.ended)) a v.to_act in
        inr (rw here (sym (v.won o)))
    | inr a ↦ inl (ground (arith, v.table.out_iff i h))
  ]

  -- Every seat of a valid finished game whose winner has a nonempty id has a row in the table.
  pub standings_complete :
      (i : ℕ) → i < length e.players → contains (names (standings e)) (get_or e.players i []) ≡ true
  unfolding contains
  standings_complete i h =
      let p = get_or e.players i [] in
      rw standings-names (elim (winner_seat i h) [
        | inl out ↦ ground (arith, contains-reverse e.out_order p)
        | inr won ↦ ground (arith, same_iff e.winner p)
      ])

  -- The table of a valid finished game whose winner has a nonempty id is the winner and then the
  -- players who went out, last one first, ranked from 1 on, with as many rows as there are seats.
  pub standings_correct :
      (names (standings e) ≡ e.winner ∷ reverse e.out_order)
      × RankedFrom 1 (standings e)
      × (length (standings e) ≡ length e.players)
  standings_correct = (standings-names, standings-RankedFrom, length-standings)
