-- ===== src/Game/Engine/Clock.antt =====
-- The operations that end a turn without a word: what they keep, and that `settle` ends.
use noitu.Prelude.{
  ℕ, zero, suc, ◌+◌, ◌≤◌, ◌≡◌, refl, inl, inr, Bool, true, false, not, ◌&&◌, ◌||◌, arith, same,
  Bool-cases, if_split,
}
use noitu.Game.State.{PlayerId, Dictionary, EndReason, end_no_legal_move, end_resigned}
use noitu.Game.Engine.{
  Engine, turn, eliminate, take_out, has_legal_move, settle_from, settle, restart_clock, expire,
  timeout, no_move, after_resign, resign, is_expired, index_of,
}
use noitu.Game.Engine.Flags.{index_from-get_or, lt_of_get_or}
use noitu.Game.Engine.Invariant.{IsValid, take_out-IsValid, alive_n-take_out, eliminate_cases}

pub eliminate-IsValid :
    (e : Engine) (p : PlayerId) (reason : EndReason)
    → IsValid e
    → e.over ≡ false
    → IsValid (eliminate e p reason).0
eliminate-IsValid e p reason v playing = elim (eliminate_cases e p reason v) [
  | inl (i, here, named, same_as) ↦ rw same_as (take_out-IsValid e i p reason v playing here named)
  | inr same_as ↦ rw same_as v
]

-- The player to act can always be taken out.
pub eliminate-turn :
    (e : Engine) (reason : EndReason)
    → IsValid e
    → eliminate e (turn e) reason ≡ (take_out e e.turn_index (turn e) reason, true)
unfolding turn eliminate index_of
eliminate-turn e reason v =
    let at : 0 + e.turn_index ≡ e.turn_index = omega arith in
    let found = rw at at (
      index_from-get_or e.players e.turn_index 0 v.table.seated_once
        (omega (arith, lt_of_get_or e.alive e.turn_index v.to_act, v.table.flagged))) in
    rw (found, eliminate, index_of) (rw v.to_act)

module _ (dict : Dictionary) where
  -- `settle` stops where the game is over or the player to act has a word.
  abbrev pub IsSettled : Engine → Type 0
  IsSettled e = (e.over || has_legal_move dict e) ≡ true

  settle_from-IsValid :
      (rounds : ℕ) (e : Engine)
      → IsValid e
      → e.alive_n ≤ rounds
      → IsValid (settle_from dict rounds e) × IsSettled (settle_from dict rounds e)
  unfolding settle_from turn
  settle_from-IsValid zero e v h = (v, ground (arith, v.ended))
  settle_from-IsValid (suc rounds) e v h = elim (Bool-cases (e.over || has_legal_move dict e)) [
    | inl stop ↦ rw stop (v, stop)
    | inr on ↦
        let playing : e.over ≡ false = ground arith in
        let out = eliminate-turn e end_no_legal_move v in
        let fewer =
          alive_n-take_out e e.turn_index (turn e) end_no_legal_move v playing v.to_act refl in
        rw on (
          rw out (
            settle_from-IsValid rounds _
              (take_out-IsValid e e.turn_index (turn e) end_no_legal_move v playing v.to_act refl)
              (omega (arith, fewer))))
  ]

  pub settle-IsValid : (e : Engine) → IsValid e → IsValid (settle dict e)
  unfolding settle
  settle-IsValid e v = (settle_from-IsValid e.alive_n e v (omega arith)).0

  -- From a valid engine the loop of settle, run for as many rounds as players are in the game,
  -- ends by its own test: the game is over or the player to act has a word.
  pub settle-IsSettled : (e : Engine) → IsValid e → IsSettled (settle dict e)
  unfolding settle
  settle-IsSettled e v = (settle_from-IsValid e.alive_n e v (omega arith)).1

restart_clock-IsValid : (e : Engine) (now : ℕ) → IsValid e → IsValid (restart_clock e now)
unfolding restart_clock turn
restart_clock-IsValid e now v =
    if_split IsValid e.over (λ o. v)
      λ o. record { table = v.table; to_act = v.to_act; ended = v.ended; won = v.won }

module _ (dict : Dictionary) where
  pub expire-IsValid :
      (e : Engine) (now : ℕ) → IsValid e → e.over ≡ false → IsValid (expire dict e now)
  unfolding expire
  expire-IsValid e now v playing =
      restart_clock-IsValid _ now (settle-IsValid dict _ (eliminate-IsValid e (turn e) _ v playing))

  pub timeout-IsValid : (e : Engine) (now : ℕ) → IsValid e → IsValid (timeout dict e now).0
  unfolding timeout
  timeout-IsValid e now v =
      if_split (λ (r : Engine × Bool). IsValid r.0) (e.over || not (is_expired e now)) (λ o. v)
        λ o. expire-IsValid e now v (ground arith)

  pub no_move-IsValid : (e : Engine) (now : ℕ) → IsValid e → IsValid (no_move dict e now).0
  unfolding no_move
  no_move-IsValid e now v =
      if_split (λ (r : Engine × Bool). IsValid r.0) (e.over || has_legal_move dict e) (λ o. v)
        λ o. expire-IsValid e now v (ground arith)

  after_resign-IsValid :
      (e : Engine) (before : PlayerId) (now : ℕ)
      → IsValid e
      → IsValid (after_resign dict e before now)
  unfolding after_resign
  after_resign-IsValid e before now v =
      if_split IsValid (not e.over && not (same (turn e) before))
        (λ o. restart_clock-IsValid _ now (settle-IsValid dict e v)) (λ o. v)

  pub resign-IsValid :
      (e : Engine) (p : PlayerId) (now : ℕ) → IsValid e → IsValid (resign dict e p now).0
  unfolding resign
  resign-IsValid e p now v =
      let out = eliminate-IsValid e p end_resigned v in
      if_split (λ (r : Engine × Bool). IsValid r.0) e.over (λ o. v)
        λ o.
          if_split (λ (r : Engine × Bool). IsValid r.0) (eliminate e p end_resigned).1
            (λ done. after_resign-IsValid _ (turn e) now (out o)) (λ kept. out o)
