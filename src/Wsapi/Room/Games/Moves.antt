-- ===== src/Wsapi/Room/Games/Moves.antt =====
-- The moves, claims, resignations and clocks of a game keep what the engine keeps.
use mathlib.Core.Path.{subst}
use noitu.Prelude.{ℕ, sym, not, ◌||◌, Option, some, Text, same, ◌==◌, if_split, opt_split}
use noitu.Vietnamese.{Unicode}
use noitu.Game.State.{
  PlayerId, Move, RejectReason, reason_none, not_your_turn, too_few_syllables, not_in_dictionary,
  wrong_link, already_used, reason_timeout, game_over,
}
use noitu.Game.Engine.{Engine, turn, has_legal_move, timeout, no_move, resign}
use noitu.Game.Submit.{submit}
use noitu.Game.Run.{word, clock, stuck, leave, step}
use noitu.Wsapi.Nickname.{Tables, sanitize_text, max_nickname_marks}
use noitu.Wsapi.Room.{
  bot_player, max_word_runes, occupies, Session, Room, RoomDictionary, Surroundings, emit, refuse,
  next_seq, broadcast,
}
use noitu.Wsapi.Room.Say.{broadcast_turn}
use noitu.Wsapi.Room.Play.{
  mark_of, resign_turn, handle_resign, claim_turn, handle_claim_dead_end, handle_turn_timer,
}
use noitu.Wsapi.Room.Words.{
  answer_submit, submit_turn, handle_submit, bot_gives_up, answer_bot, bot_turn, handle_bot_move,
}
use noitu.Wsapi.Room.Games.{
  IsClosed, Keeps, View, With, view-maybe_schedule_bot, report_out-Keeps, after_engine-Keeps,
  With-engine,
}

module _ (d : RoomDictionary) (u : Unicode) (P : View → Type 0) (c : IsClosed d u P) where
  pub resign-step :
      (r : Room) (e : Engine) (p : PlayerId) (now : ℕ)
      → With P r e
      → With P r (resign d.base e p now).0
  unfolding step
  resign-step r e p now h = c.at_step e (leave p now) r.chat r.chat_seq h

  pub handle_resign-Keeps :
      (w : Surroundings) (sess : Session) (p : PlayerId) (r : Room)
      → Keeps P r
      → Keeps P (handle_resign d w sess p r)
  unfolding handle_resign resign_turn refuse
  handle_resign-Keeps w sess p r h =
      if_split (Keeps P) (not (occupies r sess p)) (λ o. h)
        λ o.
          opt_split (Keeps P) r.engine (λ n. h)
            λ e n.
              let next = resign-step r e p w.now (With-engine d u P c r e h n) in
              if_split (Keeps P) e.over (λ v. h)
                λ v.
                  if_split (Keeps P) (not (same (turn e) p)) (λ v. h)
                    λ v.
                      if_split (Keeps P) (resign d.base e p w.now).1
                        (λ v. after_engine-Keeps d u P c e (resign d.base e p w.now).0 r next)
                        (λ v. next)

  pub no_move-step :
      (r : Room) (e : Engine) (now : ℕ) → With P r e → With P r (no_move d.base e now).0
  unfolding step
  no_move-step r e now h = c.at_step e (stuck now) r.chat r.chat_seq h

  pub handle_claim_dead_end-Keeps :
      (w : Surroundings) (sess : Session) (p : PlayerId) (r : Room)
      → Keeps P r
      → Keeps P (handle_claim_dead_end d w sess p r)
  unfolding handle_claim_dead_end claim_turn refuse
  handle_claim_dead_end-Keeps w sess p r h =
      if_split (Keeps P) (not (occupies r sess p)) (λ o. h)
        λ o.
          opt_split (Keeps P) r.engine (λ n. h)
            λ e n.
              let next = no_move-step r e w.now (With-engine d u P c r e h n) in
              if_split (Keeps P) e.over (λ v. h)
                λ v.
                  if_split (Keeps P) (not (same (turn e) p)) (λ v. h)
                    λ v.
                      if_split (Keeps P) (has_legal_move d.base e) (λ v. h)
                        λ v.
                          if_split (Keeps P) (no_move d.base e w.now).1
                            (λ v. after_engine-Keeps d u P c e (no_move d.base e w.now).0 r next)
                            (λ v. next)

  pub timeout-step :
      (r : Room) (e : Engine) (now : ℕ) → With P r e → With P r (timeout d.base e now).0
  unfolding step
  timeout-step r e now h = c.at_step e (clock now) r.chat r.chat_seq h

  pub handle_turn_timer-Keeps :
      (w : Surroundings) (r : Room) → Keeps P r → Keeps P (handle_turn_timer d w r)
  unfolding handle_turn_timer
  handle_turn_timer-Keeps w r h =
      opt_split (Keeps P) r.engine (λ n. h)
        λ e n.
          let next = timeout-step r e w.now (With-engine d u P c r e h n) in
          if_split (Keeps P) (timeout d.base e w.now).1
            (λ v. after_engine-Keeps d u P c e (timeout d.base e w.now).0 r next) (λ v. next)

  submit-step :
      (r : Room) (e : Engine) (p : PlayerId) (raw : Text) (now : ℕ)
      → With P r e
      → With P r (submit d.base u e p raw now).0
  unfolding step
  submit-step r e p raw now h = c.at_step e (word p raw now) r.chat r.chat_seq h

  answer_submit-Keeps :
      (sess : Session) (typed : Text) (e : Engine) (a : Engine × Move × RejectReason) (r : Room)
      → With P r a.0
      → Keeps P (answer_submit d u sess typed e a r)
  unfolding answer_submit broadcast_turn broadcast next_seq emit
  answer_submit-Keeps sess typed e (e', move, reason_none) r h =
      subst P (sym (view-maybe_schedule_bot d e' _)) h
  answer_submit-Keeps sess typed e (e', move, not_your_turn) r h =
      report_out-Keeps d u P c (mark_of (some e)) e' _ h
  answer_submit-Keeps sess typed e (e', move, too_few_syllables) r h =
      report_out-Keeps d u P c (mark_of (some e)) e' _ h
  answer_submit-Keeps sess typed e (e', move, not_in_dictionary) r h =
      report_out-Keeps d u P c (mark_of (some e)) e' _ h
  answer_submit-Keeps sess typed e (e', move, wrong_link) r h =
      report_out-Keeps d u P c (mark_of (some e)) e' _ h
  answer_submit-Keeps sess typed e (e', move, already_used) r h =
      report_out-Keeps d u P c (mark_of (some e)) e' _ h
  answer_submit-Keeps sess typed e (e', move, reason_timeout) r h =
      report_out-Keeps d u P c (mark_of (some e)) e' _ h
  answer_submit-Keeps sess typed e (e', move, game_over) r h =
      report_out-Keeps d u P c (mark_of (some e)) e' _ h

  pub handle_submit-Keeps :
      (t : Tables) (w : Surroundings) (sess : Session) (p : PlayerId) (raw : Text) (turn_seq : ℕ)
      (r : Room)
      → Keeps P r
      → Keeps P (handle_submit d u t w sess p raw turn_seq r)
  unfolding handle_submit submit_turn refuse emit
  handle_submit-Keeps t w sess p raw turn_seq r h =
      if_split (Keeps P) (not (occupies r sess p)) (λ o. h)
        λ o.
          opt_split (Keeps P) r.engine (λ n. h)
            λ e n.
              if_split (Keeps P) (not (turn_seq == r.turn_seq)) (λ v. h)
                λ v.
                  let typed = sanitize_text t raw max_word_runes max_nickname_marks in
                  answer_submit-Keeps sess typed e (submit d.base u e p typed w.now) r
                    (submit-step r e p typed w.now (With-engine d u P c r e h n))

  bot_gives_up-Keeps :
      (w : Surroundings) (e : Engine) (r : Room) → With P r e → Keeps P (bot_gives_up d w e r)
  unfolding bot_gives_up
  bot_gives_up-Keeps w e r h =
      let settled = no_move-step r e w.now h in
      after_engine-Keeps d u P c e _ r (
        if_split (With P r) (no_move d.base e w.now).1 (λ v. settled)
          (λ v. resign-step r (no_move d.base e w.now).0 bot_player w.now settled))

  answer_bot-Keeps :
      (w : Surroundings) (e : Engine) (a : Engine × Move × RejectReason) (r : Room)
      → With P r a.0
      → Keeps P (answer_bot d w e a r)
  unfolding answer_bot broadcast_turn broadcast next_seq
  answer_bot-Keeps w e (e', move, reason_none) r h = h
  answer_bot-Keeps w e (e', move, not_your_turn) r h =
      after_engine-Keeps d u P c e _ r (resign-step r e' bot_player w.now h)
  answer_bot-Keeps w e (e', move, too_few_syllables) r h =
      after_engine-Keeps d u P c e _ r (resign-step r e' bot_player w.now h)
  answer_bot-Keeps w e (e', move, not_in_dictionary) r h =
      after_engine-Keeps d u P c e _ r (resign-step r e' bot_player w.now h)
  answer_bot-Keeps w e (e', move, wrong_link) r h =
      after_engine-Keeps d u P c e _ r (resign-step r e' bot_player w.now h)
  answer_bot-Keeps w e (e', move, already_used) r h =
      after_engine-Keeps d u P c e _ r (resign-step r e' bot_player w.now h)
  answer_bot-Keeps w e (e', move, reason_timeout) r h =
      after_engine-Keeps d u P c e _ r (resign-step r e' bot_player w.now h)
  answer_bot-Keeps w e (e', move, game_over) r h =
      after_engine-Keeps d u P c e _ r (resign-step r e' bot_player w.now h)

  pub handle_bot_move-Keeps :
      (w : Surroundings) (choice : Option Text) (turn_seq : ℕ) (r : Room)
      → Keeps P r
      → Keeps P (handle_bot_move d u w choice turn_seq r)
  unfolding handle_bot_move bot_turn
  handle_bot_move-Keeps w choice turn_seq r h =
      opt_split (Keeps P) r.engine (λ n. h)
        λ e n.
          let now_is = With-engine d u P c r e h n in
          if_split (Keeps P) e.over (λ v. h)
            λ v.
              if_split (Keeps P) (not (turn_seq == r.turn_seq) || not (same (turn e) bot_player))
                (λ v. h)
                λ v.
                  opt_split (Keeps P) choice (λ c. bot_gives_up-Keeps w e r now_is)
                    (λ typed c.
                      answer_bot-Keeps w e (submit d.base u e bot_player typed w.now) r
                        (submit-step r e bot_player typed w.now now_is))
