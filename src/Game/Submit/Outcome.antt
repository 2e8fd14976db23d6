-- ===== src/Game/Submit/Outcome.antt =====
-- `Submit` as a whole: when a word is accepted, what each refusal means, and what changes.
use noitu.Prelude.{
  ℕ, ◌≤◌, ◌<◌, ◌≡◌, ◌≢◌, refl, true, false, not, arith, Text, same, same_iff, ltb, if_split,
}
use noitu.Vietnamese.{Unicode}
use noitu.Game.State.{
  PlayerId, Dictionary, RejectReason, reason_none, not_your_turn, too_few_syllables,
  not_in_dictionary, wrong_link, already_used, reason_timeout, game_over, Move,
}
use noitu.Game.Engine.{Engine, turn, is_expired, expire}
use noitu.Game.Submit.{
  Legal, Verdict, legal, reject, empty_move, judge, move_of, play, answer, submit,
}
use noitu.Game.Submit.Rules.{IsWord, Means, judge_complete, judge-Means}

module _ (dict : Dictionary) (u : Unicode) (e : Engine) (p : PlayerId) (raw : Text) (now : ℕ) where
  -- The game is on, it is the player's turn, and the clock has not run out.
  pub record MayAct : Type 0 where
    pub playing : e.over ≡ false
    pub on_turn : p ≡ turn e
    pub in_time : now ≤ e.deadline

  -- What the reason of an answer says of the game, the player and the word.
  abbrev pub Explains : RejectReason → Type 0
  Explains reason_none = MayAct × ((w : Legal) × IsWord dict u e raw w)
  Explains game_over = e.over ≡ true
  Explains not_your_turn = (e.over ≡ false) × (p ≢ turn e)
  Explains reason_timeout = (e.over ≡ false) × (p ≡ turn e) × (e.deadline < now)
  Explains too_few_syllables = MayAct × Means dict u e raw (reject too_few_syllables)
  Explains not_in_dictionary = MayAct × Means dict u e raw (reject not_in_dictionary)
  Explains wrong_link = MayAct × Means dict u e raw (reject wrong_link)
  Explains already_used = MayAct × Means dict u e raw (reject already_used)

  answer-Explains :
      (v : Verdict) → MayAct → Means dict u e raw v → Explains (answer dict e p raw now v).2
  unfolding answer
  answer-Explains (legal w) may m = (may, (w, m))
  answer-Explains (reject too_few_syllables) may m = (may, m)
  answer-Explains (reject not_in_dictionary) may m = (may, m)
  answer-Explains (reject wrong_link) may m = (may, m)
  answer-Explains (reject already_used) may m = (may, m)
  answer-Explains (reject reason_none) may m = absurd m
  answer-Explains (reject not_your_turn) may m = absurd m
  answer-Explains (reject reason_timeout) may m = absurd m
  answer-Explains (reject game_over) may m = absurd m

  -- The reason that Submit answers tells what held: for an accepted word the player could act and
  -- the word is a legal one; for each refusal the game was over, it was not the player's turn,
  -- the deadline had passed, or the word was too short, not in the dictionary, off the link or
  -- already played.
  pub submit-Explains : Explains (submit dict u e p raw now).2
  unfolding submit is_expired
  submit-Explains =
      if_split After e.over (λ o. o)
        λ playing.
          if_split After (not (same p (turn e)))
            (λ off. (playing, λ at. ground (arith, same_iff p (turn e))))
            λ on.
              let mine = (same_iff p (turn e)).0 (ground arith) in
              if_split After (ltb e.deadline now) (λ late. (playing, mine, ground arith))
                λ fresh.
                  answer-Explains (judge dict u e raw)
                    (record { playing = playing; on_turn = mine; in_time = ground arith })
                    (judge-Means dict u e raw)
    where
      After : Engine × Move × RejectReason → Type 0
      After r = Explains r.2

  -- A word that the rules allow, sent in time by the player to act in a game that is on, is
  -- accepted: the answer is the move of the word, and the game is the one after it.
  pub submit_accepts :
      (w : Legal)
      → MayAct
      → IsWord dict u e raw w
      → let m = move_of dict e p raw now w in
        submit dict u e p raw now ≡ (play e m now, m, reason_none)
  unfolding submit is_expired answer
  submit_accepts w may word =
      ground (arith, same_iff p (turn e), judge_complete dict u e raw w word)

  answer_refuses :
      (v : Verdict)
      → (answer dict e p raw now v).2 ≢ reason_none
      → ((answer dict e p raw now v).0 ≡ e) × ((answer dict e p raw now v).1 ≡ empty_move)
  unfolding answer
  answer_refuses (reject r) h = (refl, refl)
  answer_refuses (legal w) h = absurd (h refl)

  -- A word refused for another reason than the clock leaves the whole game as it was, and an
  -- empty move is answered.
  pub submit_refused :
      (submit dict u e p raw now).2 ≢ reason_none
      → (submit dict u e p raw now).2 ≢ reason_timeout
      → ((submit dict u e p raw now).0 ≡ e) × ((submit dict u e p raw now).1 ≡ empty_move)
  unfolding submit
  submit_refused =
      if_split After e.over (λ o h k. (refl, refl))
        λ playing.
          if_split After (not (same p (turn e))) (λ off h k. (refl, refl))
            λ on.
              if_split After (is_expired e now) (λ late h k. absurd (k refl))
                λ fresh h k. answer_refuses (judge dict u e raw) h
    where
      After : Engine × Move × RejectReason → Type 0
      After r = r.2 ≢ reason_none → r.2 ≢ reason_timeout → (r.0 ≡ e) × (r.1 ≡ empty_move)

  -- A word of the player to act that comes after the deadline of a game that is on is refused as
  -- late, and the turn ends as it does by the clock.
  pub submit_late :
      e.over ≡ false
      → p ≡ turn e
      → e.deadline < now
      → submit dict u e p raw now ≡ (expire dict e now, empty_move, reason_timeout)
  unfolding submit is_expired
  submit_late playing mine late = ground (arith, same_iff p (turn e))
