-- ===== src/Game/Run/Words.antt =====
-- The operations that take players out leave the words and the scores alone.
use noitu.Prelude.{
  ℕ, zero, suc, ◌≡◌, refl, ◌∙◌, Bool, not, ◌&&◌, ◌||◌, same, ◌==◌, leb, if_split, Option-cases, inl,
  inr, get_or, false,
}
use noitu.Game.State.{PlayerId, Dictionary, EndReason, end_no_legal_move, end_resigned}
use noitu.Game.Engine.{
  Engine, turn, crown, advance, mark_out, take_out, eliminate, index_of, has_legal_move,
  settle_from, settle, restart_clock, expire, timeout, no_move, after_resign, resign, is_expired,
}

pub record SameWords (e e' : Engine) : Type 0 where
  pub players : e'.players ≡ e.players
  pub used : e'.used ≡ e.used
  pub current : e'.current ≡ e.current
  pub history : e'.history ≡ e.history
  pub scores : e'.scores ≡ e.scores
  pub turn_limit : e'.turn_limit ≡ e.turn_limit

abbrev unchanged : (e : Engine) → SameWords e e
unchanged e = record {
  players = refl;
  used = refl;
  current = refl;
  history = refl;
  scores = refl;
  turn_limit = refl;
}

SameWords-trans : {a b c : Engine} → SameWords a b → SameWords b c → SameWords a c
SameWords-trans s t = record {
  players = t.players ∙ s.players;
  used = t.used ∙ s.used;
  current = t.current ∙ s.current;
  history = t.history ∙ s.history;
  scores = t.scores ∙ s.scores;
  turn_limit = t.turn_limit ∙ s.turn_limit;
}

crown-SameWords : (e e' : Engine) → SameWords e e' → SameWords e (crown e')
unfolding crown
crown-SameWords e e' s =
    if_split (SameWords e) (leb e'.alive_n 1)
      (λ o. record {
        players = s.players;
        used = s.used;
        current = s.current;
        history = s.history;
        scores = s.scores;
        turn_limit = s.turn_limit;
      })
      (λ o. s)

take_out-SameWords :
    (e : Engine) (i : ℕ) (p : PlayerId) (reason : EndReason) → SameWords e (take_out e i p reason)
unfolding take_out advance mark_out
take_out-SameWords e i p reason = crown-SameWords e _ (
    if_split (SameWords e) (e.turn_index == i)
      (λ o. record {
        players = refl;
        used = refl;
        current = refl;
        history = refl;
        scores = refl;
        turn_limit = refl;
      })
      (λ o. record {
        players = refl;
        used = refl;
        current = refl;
        history = refl;
        scores = refl;
        turn_limit = refl;
      }))

pub eliminate-SameWords :
    (e : Engine) (p : PlayerId) (reason : EndReason) → SameWords e (eliminate e p reason).0
unfolding eliminate
eliminate-SameWords e p reason = elim (Option-cases (index_of e p)) [
  | inl n ↦ rw (n, eliminate) (unchanged e)
  | inr (i, n) ↦
      rw (n, eliminate)
        (if_split (λ (r : Engine × Bool). SameWords e r.0) (get_or e.alive i false)
          (λ o. take_out-SameWords e i p reason) (λ o. unchanged e))
]

pub restart_clock-SameWords : (e : Engine) (now : ℕ) → SameWords e (restart_clock e now)
unfolding restart_clock
restart_clock-SameWords e now =
    if_split (SameWords e) e.over (λ o. unchanged e)
      λ o. record {
        players = refl;
        used = refl;
        current = refl;
        history = refl;
        scores = refl;
        turn_limit = refl;
      }

module _ (dict : Dictionary) where
  settle_from-SameWords : (rounds : ℕ) (e : Engine) → SameWords e (settle_from dict rounds e)
  unfolding settle_from
  settle_from-SameWords zero e = unchanged e
  settle_from-SameWords (suc rounds) e =
      let out = (eliminate e (turn e) end_no_legal_move).0 in
      if_split (SameWords e) (e.over || has_legal_move dict e) (λ o. unchanged e)
        λ o.
          SameWords-trans (eliminate-SameWords e (turn e) end_no_legal_move)
            (settle_from-SameWords rounds out)

  pub settle-SameWords : (e : Engine) → SameWords e (settle dict e)
  unfolding settle
  settle-SameWords e = settle_from-SameWords e.alive_n e

  pub expire-SameWords : (e : Engine) (now : ℕ) → SameWords e (expire dict e now)
  unfolding expire
  expire-SameWords e now =
      SameWords-trans (eliminate-SameWords e (turn e) _)
        (SameWords-trans (settle-SameWords _) (restart_clock-SameWords _ now))

  pub timeout-SameWords : (e : Engine) (now : ℕ) → SameWords e (timeout dict e now).0
  unfolding timeout
  timeout-SameWords e now =
      if_split (λ (r : Engine × Bool). SameWords e r.0) (e.over || not (is_expired e now))
        (λ o. unchanged e) (λ o. expire-SameWords e now)

  pub no_move-SameWords : (e : Engine) (now : ℕ) → SameWords e (no_move dict e now).0
  unfolding no_move
  no_move-SameWords e now =
      if_split (λ (r : Engine × Bool). SameWords e r.0) (e.over || has_legal_move dict e)
        (λ o. unchanged e) (λ o. expire-SameWords e now)

  after_resign-SameWords :
      (e : Engine) (before : PlayerId) (now : ℕ) → SameWords e (after_resign dict e before now)
  unfolding after_resign
  after_resign-SameWords e before now =
      if_split (SameWords e) (not e.over && not (same (turn e) before))
        (λ o. SameWords-trans (settle-SameWords e) (restart_clock-SameWords _ now))
        (λ o. unchanged e)

  pub resign-SameWords : (e : Engine) (p : PlayerId) (now : ℕ) → SameWords e (resign dict e p now).0
  unfolding resign
  resign-SameWords e p now =
      let out = eliminate-SameWords e p end_resigned in
      if_split (λ (r : Engine × Bool). SameWords e r.0) e.over (λ o. unchanged e)
        λ o.
          if_split (λ (r : Engine × Bool). SameWords e r.0) (eliminate e p end_resigned).1
            (λ done. SameWords-trans out (after_resign-SameWords _ (turn e) now)) (λ kept. out)
