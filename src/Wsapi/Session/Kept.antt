-- ===== src/Wsapi/Session/Kept.antt =====
-- What a message leaves of a connection as it was.
use noitu.Prelude.{
  ◌≡◌, refl, ◌∙◌, Bool, false, ◌∷◌, Option, none, some, Text, contains, null, length, leb, ◌==◌,
  if_split, opt_split, arith,
}
use noitu.Vietnamese.{Unicode, normalize, has_enough_syllables}
use noitu.Wsapi.Nickname.{Tables, sanitize_text, max_nickname_marks}
use noitu.Wsapi.RateLimit.{Tokens, spend, allow}
use noitu.Wsapi.Message.{ServerMessage, WireDifficulty, difficulty_of}
use noitu.Wsapi.Room.{Session, max_word_runes}
use noitu.Wsapi.Room.Loop.{resume}
use noitu.Wsapi.Hub.{Hub, HubError, send_room, start_bot_room, create_room, cancel_quick_match}
use noitu.Wsapi.Hub.Tokens.{
  new_registered_room_sessions, send_room_sessions, seat_first_sessions, join_room_sessions,
  quick_match_sessions,
}
use noitu.Wsapi.Session.{Desk, reply, max_word_reports_per_session}
use noitu.Wsapi.Session.Dispatch.{
  ClientMessage, DeskView, charge, to_lobby, is_mid_game, settle_hub, open_bot_game, open_room_for,
  enter_room, pair_up, is_seated, ask_quick_match, unless_mid_game, resume_from, answer_token,
  file_word, pass_report, report_one, read_report, handle_report, route, is_hello, hello,
  start_bot_game, create_room_msg, join_room_msg, quick_match_msg, cancel_quick_match_msg,
  submit_word_msg, resign_msg, claim_dead_end_msg, report_word_msg, set_ready, start_game,
  kick_player, leave_room_msg, send_chat, ping, unknown_payload,
}
use noitu.Wsapi.Session.Face.{
  Keeps, face, refuse_with-Keeps, Keeps-hub, reply-Keeps, forward-Keeps, to_room_input-Keeps,
  with_room_budget-Keeps, Face, IsKept, IsKept-all,
}

module _ (k : Tokens) where
  settle_hub-Keeps :
      (answer : HubError → ServerMessage) (a : Hub × Option HubError) (st : Desk k)
      → a.0.sessions ≡ st.hub.sessions
      → Keeps k st (settle_hub k answer a st)
  unfolding settle_hub reply
  settle_hub-Keeps answer (h, none) st is = Keeps-hub k st h is
  settle_hub-Keeps answer (h, some e) st is = Keeps-hub k st h is

  open_bot_game-Keeps :
      (v : DeskView) (level : WireDifficulty) (st : Desk k)
      → Keeps k st (open_bot_game k v level st)
  unfolding open_bot_game start_bot_room
  open_bot_game-Keeps v level st =
      opt_split (λ st'. Keeps k st st') (difficulty_of level) (λ n. refuse_with-Keeps k _ st)
        λ d is.
          settle_hub-Keeps _ _ st
            (seat_first_sessions v.hub_view _ _ ∙ new_registered_room_sessions v.hub_view st.hub)

  open_room_for-Keeps : (v : DeskView) (st : Desk k) → Keeps k st (open_room_for k v st)
  unfolding open_room_for create_room
  open_room_for-Keeps v st =
      settle_hub-Keeps _ _ st
        (seat_first_sessions v.hub_view _ _ ∙ new_registered_room_sessions v.hub_view st.hub)

  enter_room-Keeps :
      (v : DeskView) (code : Text) (st : Desk k) → Keeps k st (enter_room k v code st)
  unfolding enter_room
  enter_room-Keeps v code st =
      let paid = allow k st.join_limiter st.conn.remote_ip v.now in
      let charged : Desk k = record st { join_limiter = paid.0 } in
      if_split (λ st'. Keeps k st st') paid.1
        (λ y. settle_hub-Keeps _ _ charged (join_room_sessions v.hub_view code st.conn.sess st.hub))
        (λ n. refuse_with-Keeps k _ charged)

  ask_quick_match-Keeps : (v : DeskView) (st : Desk k) → Keeps k st (ask_quick_match k v st)
  unfolding ask_quick_match pair_up
  ask_quick_match-Keeps v st =
      if_split (λ st'. Keeps k st st') (is_seated st.conn.room) (λ y. refuse_with-Keeps k _ st)
        λ n.
          with_room_budget-Keeps k v _ st (λ st'.
            settle_hub-Keeps _ _ st' (quick_match_sessions v.hub_view st'.conn.sess st'.hub))

  unless_mid_game-Keeps :
      (v : DeskView) (act : Desk k → Desk k) (st : Desk k)
      → Keeps k st (act st)
      → Keeps k st (unless_mid_game k v act st)
  unfolding unless_mid_game
  unless_mid_game-Keeps v act st kept =
      if_split (λ st'. Keeps k st st') (is_mid_game k v st) (λ y. refuse_with-Keeps k _ st)
        (λ n. kept)

  resume_from-Keeps :
      (v : DeskView) (prior : Session) (st : Desk k) → Keeps k st (resume_from k v prior st)
  unfolding resume_from
  resume_from-Keeps v prior st =
      opt_split (λ st'. Keeps k st st') (v.room_of prior) (λ n. refuse_with-Keeps k _ st)
        λ b is.
          if_split (λ st'. Keeps k st st') (v.hub_view.takes b.0)
            (λ t.
              Keeps-hub k st
                (send_room v.hub_view b.0 (resume st.conn.sess b.1 (some prior)) st.hub)
                (send_room_sessions v.hub_view b.0 _ st.hub))
            (λ t. refuse_with-Keeps k _ st)

  pub answer_token-Keeps :
      (v : DeskView) (token : Text) (found : Option Session) (st : Desk k)
      → Keeps k st (answer_token k v token found st)
  unfolding answer_token
  answer_token-Keeps v token (some prior) st =
      if_split (λ st'. Keeps k st st') (prior == st.conn.sess) (λ y. IsKept-all (face k st))
        (λ n. resume_from-Keeps v prior st)
  answer_token-Keeps v token none st =
      if_split (λ st'. Keeps k st st') (null token) (λ y. IsKept-all (face k st))
        (λ n. refuse_with-Keeps k _ st)

  IsKept-then : {f g h : Face} → IsKept f g → IsKept g h → IsKept f h
  IsKept-then x y = record {
    same_sess = y.same_sess ∙ x.same_sess;
    same_token = y.same_token ∙ x.same_token;
    same_room = y.same_room ∙ x.same_room;
    same_nick = y.same_nick ∙ x.same_nick;
    same_greeted = y.same_greeted ∙ x.same_greeted;
    same_sessions = y.same_sessions ∙ x.same_sessions;
    fit = λ w. y.fit (x.fit w);
  }

  module _ (t : Tables) (denylisted : Text → Bool) (u : Unicode) where
    pass_report-Keeps :
        (v : DeskView) (word : Text) (st : Desk k)
        → Keeps k st (pass_report k t denylisted u v word st)
    unfolding pass_report
    pass_report-Keeps v word st =
        opt_split (λ st'. Keeps k st st') st.conn.room (λ n. reply-Keeps k _ st)
          λ b is. forward-Keeps k v _ b.0 _ st

    report_one-Keeps :
        (v : DeskView) (word : Text) (st : Desk k)
        → Keeps k st (report_one k t denylisted u v word st)
    unfolding report_one file_word
    report_one-Keeps v word st =
        if_split (λ st'. Keeps k st st') (contains st.conn.reported_words word)
          (λ y. pass_report-Keeps v word st)
          λ n.
            if_split (λ st'. Keeps k st st')
              (leb max_word_reports_per_session (length st.conn.reported_words))
              (λ f. refuse_with-Keeps k _ st)
              λ room.
                let filed : Desk k = record st {
                  conn = record st.conn { reported_words = word ∷ st.conn.reported_words };
                } in
                IsKept-then {g = face k filed}
                  (record {
                    same_sess = refl;
                    same_token = refl;
                    same_room = refl;
                    same_nick = refl;
                    same_greeted = refl;
                    same_sessions = refl;
                    fit = λ f. record {
                      bounded = ground (arith, f.bounded);
                      differ = ground (arith, f.differ);
                    };
                  })
                  (pass_report-Keeps v word filed)

    read_report-Keeps :
        (v : DeskView) (raw : Text) (st : Desk k)
        → Keeps k st (read_report k t denylisted u v raw st)
    unfolding read_report
    read_report-Keeps v raw st =
        opt_split (λ st'. Keeps k st st')
          (normalize u (sanitize_text t raw max_word_runes max_nickname_marks))
          (λ n. refuse_with-Keeps k _ st)
          (λ w is.
            if_split (λ st'. Keeps k st st') (has_enough_syllables w.1)
              (λ e. report_one-Keeps v w.0 st) (λ e. refuse_with-Keeps k _ st))

    handle_report-Keeps :
        (v : DeskView) (raw : Text) (st : Desk k)
        → Keeps k st (handle_report k t denylisted u v raw st)
    unfolding handle_report charge
    handle_report-Keeps v raw st =
        let paid = spend k st.conn.chat_limiter v.now in
        let charged : Desk k = record st { conn = record st.conn { chat_limiter = paid.0 } } in
        if_split (λ st'. Keeps k st st') paid.1 (λ y. read_report-Keeps v raw charged)
          (λ n. refuse_with-Keeps k _ charged)

    -- A message that is no hello keeps what is known of the connection.
    pub route-Keeps :
        (v : DeskView) (m : ClientMessage) (st : Desk k)
        → is_hello m ≡ false
        → Keeps k st (route k t denylisted u v m st).0
    unfolding route to_lobby cancel_quick_match is_hello
    route-Keeps v (hello version nickname token) st after = absurd (ground arith)
    route-Keeps v (start_bot_game level) st after =
        unless_mid_game-Keeps v _ st (with_room_budget-Keeps k v _ st (open_bot_game-Keeps v level))
    route-Keeps v create_room_msg st after =
        unless_mid_game-Keeps v _ st (with_room_budget-Keeps k v _ st (open_room_for-Keeps v))
    route-Keeps v (join_room_msg code) st after =
        unless_mid_game-Keeps v _ st (enter_room-Keeps v code st)
    route-Keeps v quick_match_msg st after =
        unless_mid_game-Keeps v _ st (ask_quick_match-Keeps v st)
    route-Keeps v cancel_quick_match_msg st after =
        reply-Keeps k _ (record st { hub = cancel_quick_match st.conn.sess st.hub })
    route-Keeps v (submit_word_msg word turn_seq) st after = to_room_input-Keeps k v _ _ _ _ st
    route-Keeps v resign_msg st after = to_room_input-Keeps k v _ _ _ _ st
    route-Keeps v claim_dead_end_msg st after = to_room_input-Keeps k v _ _ _ _ st
    route-Keeps v (report_word_msg word) st after = handle_report-Keeps v word st
    route-Keeps v (set_ready ready) st after = to_room_input-Keeps k v _ _ _ _ st
    route-Keeps v start_game st after = to_room_input-Keeps k v _ _ _ _ st
    route-Keeps v (kick_player target) st after = to_room_input-Keeps k v _ _ _ _ st
    route-Keeps v leave_room_msg st after = to_room_input-Keeps k v _ _ _ _ st
    route-Keeps v (send_chat text) st after = to_room_input-Keeps k v _ _ _ _ st
    route-Keeps v (ping client_time) st after = reply-Keeps k _ st
    route-Keeps v unknown_payload st after = refuse_with-Keeps k _ st
