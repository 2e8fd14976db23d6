-- ===== src/Game/Submit/Effect.antt =====
-- What an accepted word changes.
use noitu.Prelude.{
  ℕ, ◌+◌, ◌≤◌, ◌≡◌, refl, false, [], ◌∷◌, ◌++◌, arith, Text, same, contains, same_iff, length,
  if◌then◌else◌, some, lookup_or-insert, ◌||◌,
}
use noitu.Vietnamese.{Unicode}
use noitu.Game.State.{PlayerId, Dictionary, reason_none, Move}
use noitu.Game.Engine.{Engine, score, advance, points_for, chain_length}
use noitu.Game.Score.{sum_parts, speed_points, rarity_points}
use noitu.Game.Score.Cap.{points_of-min, points_of-parts}
use mathlib.Core.Path.{subst}
use noitu.Game.Engine.Flags.{lt_of_get_or}
use noitu.Game.Engine.Rotation.{Landing}
use noitu.Game.Engine.Invariant.{IsValid, advance-Landing}
use noitu.Game.Submit.{Legal, move_of, play, submit}
use noitu.Game.Submit.Rules.{IsWord}
use noitu.Game.Submit.Outcome.{submit_accepts, submit-Explains, Explains}

-- The state after `m` was played in `e`: the word is spent and recorded, its points go to its player
-- alone, its last syllable is to be answered, the clock restarts, and the turn goes to the nearest
-- seat in the game. Nobody goes out.
pub record IsPlayed (e : Engine) (m : Move) (now : ℕ) (e' : Engine) : Type 0 where
  pub spent : (w : Text) → contains e'.used w ≡ (same m.word w || contains e.used w)
  pub recorded : e'.history ≡ e.history ++ m ∷ []
  pub paid :
      (q : PlayerId) → score e' q ≡ (if same m.player q then score e q + m.points else score e q)
  pub linked : e'.current ≡ m.last
  pub clock : e'.deadline ≡ now + e.turn_limit
  pub next_up : Landing (length e.players) e.alive (length e.players) e.turn_index e'.turn_index
  pub same_seats : (e'.players ≡ e.players) × (e'.alive ≡ e.alive) × (e'.out_order ≡ e.out_order)
  pub still_on : e'.over ≡ e.over

play-IsPlayed :
    (e : Engine) (m : Move) (now : ℕ) → IsValid e → e.over ≡ false → IsPlayed e m now (play e m now)
unfolding play score contains advance
play-IsPlayed e m now v playing = record {
  spent = λ w. refl;
  recorded = refl;
  paid = λ q. ground (
    arith,
    lookup_or-insert 0 (score e m.player + m.points) m.player q e.scores,
    same_iff m.player q,
  );
  linked = refl;
  clock = refl;
  next_up =
      advance-Landing e v.table
        (omega (arith, lt_of_get_or e.alive e.turn_index v.to_act, v.table.flagged))
        (ground (arith, v.ended));
  same_seats = (refl, refl, refl);
  still_on = refl;
}

-- The move that is reported for an accepted word, over the state before it.
pub record IsFair (dict : Dictionary) (e : Engine) (p : PlayerId) (raw : Text) (m : Move)
    : Type 0 where
  pub mine : m.player ≡ p
  pub verbatim : m.typed ≡ raw
  pub answers : m.first ≡ e.current
  pub fresh : contains e.used m.word ≡ false
  pub starts : dict.first_syllable m.word ≡ some m.first
  pub ends : dict.last_syllable m.word ≡ some m.last
  pub long_enough : 2 ≤ m.syllables
  pub bounded : m.points ≤ 100
  pub added_up : sum_parts m.parts ≡ m.points

module _ (dict : Dictionary) (u : Unicode) (e : Engine) (p : PlayerId) (raw : Text) (now : ℕ) where
  move_of-IsFair :
      (w : Legal) → IsWord dict u e raw w → IsFair dict e p raw (move_of dict e p raw now w)
  unfolding move_of points_for
  move_of-IsFair w r =
      let n = w.count in
      let c = chain_length e in
      let s = speed_points e.deadline e.turn_limit now in
      let o = rarity_points (dict.out_degree w.first) in
      record {
        mine = refl;
        verbatim = refl;
        answers = r.links;
        fresh = r.fresh;
        starts = r.starts;
        ends = r.ends;
        long_enough = omega (arith, r.counted, r.enough);
        bounded = omega (arith, points_of-min n c s o);
        added_up = (points_of-parts n c s o).0;
      }

  -- In a valid game, a word that Submit accepts follows the rules (its player's, fresh, answers
  -- the current syllable, two syllables or more, at most 100 points that its parts add up to) and
  -- changes the game as it should: spent, recorded, paid to its player alone, its last syllable
  -- asked next, the clock restarted, the turn at the nearest seat still in the game, and nobody
  -- out.
  pub submit_effect :
      IsValid e
      → (submit dict u e p raw now).2 ≡ reason_none
      → IsFair dict e p raw (submit dict u e p raw now).1
        × IsPlayed e (submit dict u e p raw now).1 now (submit dict u e p raw now).0
  submit_effect v h =
      let explained = subst (Explains dict u e p raw now) h (submit-Explains dict u e p raw now) in
      let w = explained.1.0 in
      let word = explained.1.1 in
      rw (submit_accepts dict u e p raw now w explained.0 word)
        (move_of-IsFair w word, play-IsPlayed e _ now v explained.0.playing)
