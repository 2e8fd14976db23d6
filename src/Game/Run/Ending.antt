-- ===== src/Game/Run/Ending.antt =====
-- How turns and games end.
use noitu.Prelude.{
  ℕ, zero, suc, ◌+◌, ◌≤◌, ◌<◌, ◌≡◌, refl, ◌∙◌, ap, true, false, not, List, [], ◌∷◌, arith, Text,
  ◌⊎◌, contains, if◌then◌else◌, Bool-cases, Option-cases, inl, inr, keep, null,
}
use noitu.Game.State.{PlayerId, Dictionary, EndReason, end_timeout, end_no_legal_move}
use noitu.Game.Engine.{
  Engine, turn, is_expired, has_legal_move, legal_moves, some_unused, eliminate, take_out, mark_out,
  crown, advance, settle, settle_from, restart_clock, expire, timeout, index_of,
}
use noitu.Game.Engine.Invariant.{IsValid, alive_n-take_out}
use noitu.Game.Engine.Clock.{
  eliminate-IsValid, eliminate-turn, IsSettled, settle-IsSettled, expire-IsValid,
}
use noitu.Game.Run.Words.{
  SameWords, expire-SameWords, restart_clock-SameWords, settle-SameWords, eliminate-SameWords,
}

unused-keep :
    (used ws : List Text) → some_unused used ws ≡ not (null (keep (λ w. not (contains used w)) ws))
unfolding some_unused
unused-keep used [] = refl
unused-keep used (w ∷ ws) = ground (arith, unused-keep used ws)

-- HasLegalMove, which stops at the first unplayed word, answers whether LegalMoves lists
-- anything.
pub has_legal_move-legal_moves :
    (dict : Dictionary) (e : Engine) → has_legal_move dict e ≡ not (null (legal_moves dict e))
unfolding has_legal_move legal_moves
has_legal_move-legal_moves dict e = unused-keep e.used (dict.words_starting_with e.current)

over-restart_clock : (e : Engine) (now : ℕ) → (restart_clock e now).over ≡ e.over
unfolding restart_clock
over-restart_clock e now = ground arith

alive_n-restart_clock : (e : Engine) (now : ℕ) → (restart_clock e now).alive_n ≡ e.alive_n
unfolding restart_clock
alive_n-restart_clock e now = ground arith

deadline-restart_clock :
    (e : Engine) (now : ℕ)
    → (restart_clock e now).over ≡ false
    → (restart_clock e now).deadline ≡ now + e.turn_limit
unfolding restart_clock
deadline-restart_clock e now h = ground arith

alive_n-eliminate :
    (e : Engine) (p : PlayerId) (reason : EndReason) → (eliminate e p reason).0.alive_n ≤ e.alive_n
unfolding eliminate take_out crown advance mark_out
alive_n-eliminate e p reason = elim (Option-cases (index_of e p)) [
  | inl n ↦ rw (n, eliminate) (omega arith)
  | inr (i, n) ↦ rw (n, eliminate) (ground arith)
]

module _ (dict : Dictionary) where
  -- Whether a word is left depends on the words alone.
  legal_same : (e e' : Engine) → SameWords e e' → has_legal_move dict e' ≡ has_legal_move dict e
  unfolding has_legal_move
  legal_same e e' s = rw (s.used, s.current)

  expire-IsSettled :
      (e : Engine) (now : ℕ) → IsValid e → e.over ≡ false → IsSettled dict (expire dict e now)
  unfolding expire
  expire-IsSettled e now v playing =
      let out =
        (eliminate e (turn e)
          (if has_legal_move dict e then end_timeout else end_no_legal_move)).0 in
      let settled = settle-IsSettled dict out (eliminate-IsValid e (turn e) _ v playing) in
      rw
        (
          over-restart_clock (settle dict out) now,
          legal_same (settle dict out) _ (restart_clock-SameWords (settle dict out) now),
        )
        settled

  -- In a valid game that is on, a turn that runs out on a syllable without a word left ends the
  -- whole game: everybody behind the player goes out too.
  pub expire_dead_end :
      (e : Engine) (now : ℕ)
      → IsValid e
      → e.over ≡ false
      → has_legal_move dict e ≡ false
      → (expire dict e now).over ≡ true
  expire_dead_end e now v playing dead =
      ground (arith, expire-IsSettled e now v playing, legal_same e _ (expire-SameWords dict e now))

  -- After the turn ran out in a valid game that is on, the game is over, or the player to act has
  -- a word to play and the whole turn limit to play it.
  pub expire_hands_over :
      (e : Engine) (now : ℕ)
      → IsValid e
      → e.over ≡ false
      → ((expire dict e now).over ≡ true)
        ⊎ ((has_legal_move dict (expire dict e now) ≡ true)
            × ((expire dict e now).deadline ≡ now + e.turn_limit))
  unfolding expire
  expire_hands_over e now v playing =
      let out =
        (eliminate e (turn e)
          (if has_legal_move dict e then end_timeout else end_no_legal_move)).0 in
      let limit =
        (settle-SameWords dict out).turn_limit ∙ (eliminate-SameWords e (turn e) _).turn_limit in
      elim (Bool-cases (expire dict e now).over) [
        | inl o ↦ inl o
        | inr o ↦ inr (
          ground (arith, expire-IsSettled e now v playing),
          deadline-restart_clock (settle dict out) now o ∙ ap (λ t. now + t) limit,
        )
      ]

  alive_n-settle_from : (rounds : ℕ) (e : Engine) → (settle_from dict rounds e).alive_n ≤ e.alive_n
  unfolding settle_from
  alive_n-settle_from zero e = omega arith
  alive_n-settle_from (suc rounds) e = ground (
    arith,
    alive_n-eliminate e (turn e) end_no_legal_move,
    alive_n-settle_from rounds (eliminate e (turn e) end_no_legal_move).0,
  )

  fewer-expire :
      (e : Engine) (now : ℕ) → IsValid e → e.over ≡ false → (expire dict e now).alive_n < e.alive_n
  unfolding expire settle turn
  fewer-expire e now v playing =
      let reason = if has_legal_move dict e then end_timeout else end_no_legal_move in
      let out = eliminate-turn e reason v in
      rw out (
        omega (
          arith,
          alive_n-restart_clock (settle dict (take_out e e.turn_index (turn e) reason)) now,
          alive_n-settle_from (take_out e e.turn_index (turn e) reason).alive_n
              (take_out e e.turn_index (turn e) reason),
          alive_n-take_out e e.turn_index (turn e) reason v playing v.to_act refl,
        ))

  -- A deadline that passes.
  pub tick : Engine → Engine
  tick e = (timeout dict e (e.deadline + 1)).0

  pub ticks : ℕ → Engine → Engine
  ticks zero e = e
  ticks (suc k) e = ticks k (tick e)

  tick_cases :
      (e : Engine)
      → ((e.over ≡ true) × (tick e ≡ e))
        ⊎ ((e.over ≡ false) × (tick e ≡ expire dict e (e.deadline + 1)))
  unfolding tick timeout is_expired
  tick_cases e = ground arith

  -- A valid game with at most k + 1 players still in it is over after k deadlines that pass
  -- unanswered.
  pub ticks_end : (k : ℕ) (e : Engine) → IsValid e → e.alive_n ≤ suc k → (ticks k e).over ≡ true
  unfolding ticks
  ticks_end zero e v h = ground (arith, v.ended)
  ticks_end (suc k) e v h = elim (tick_cases e) [
    | inl (o, same_as) ↦ rw (same_as, ticks) (ticks_end k e v (ground (arith, v.ended)))
    | inr (o, same_as) ↦
        rw (same_as, ticks)
          (ticks_end k _ (expire-IsValid dict e (e.deadline + 1) v o)
            (omega (arith, fewer-expire e (e.deadline + 1) v o)))
  ]
