-- ===== src/Wsapi/Room/Games.antt =====
-- The games of a room: the room changes its engine only by the operations of the engine.
pub mod Moves
pub mod Seats
pub mod Rounds
pub mod Refines
pub mod Talk
pub mod Newcomer
use mathlib.Core.Path.{subst}
use noitu.Prelude.{
  ◌++◌, ◌+◌, ℕ, zero, suc, ◌≡◌, refl, sym, ◌∙◌, ap, Bool, true, false, not, ◌&&◌, ◌||◌, List, [],
  ◌∷◌, ◌++◌, Option, none, some, Text, same, length, ◌==◌, if◌then◌else◌, if_split, opt_split,
  Option-cases, Bool-cases, inl, inr, null,
}
use noitu.Vietnamese.{Unicode}
use noitu.Game.State.{
  PlayerId, Move, RejectReason, reason_none, not_your_turn, too_few_syllables, not_in_dictionary,
  wrong_link, already_used, reason_timeout, game_over,
}
use noitu.Game.Engine.{Engine, turn, has_legal_move, timeout, no_move, resign}
use noitu.Game.Submit.{Started, started, refused, new, submit}
use noitu.Game.Run.{Input, word, clock, stuck, leave, step, run}
use noitu.Wsapi.Nickname.{Tables, sanitize_text, max_nickname_marks}
use noitu.Wsapi.Room.{
  bot_player, max_word_runes, occupies, Session, Seat, Room, RoomDictionary, Surroundings, emit,
  refuse, next_seq, broadcast, stop_counting_live, take_seat, ChatEntry,
}
use noitu.Wsapi.Room.Chat.{trim_chat}
use noitu.Wsapi.Room.Lobby.{scrub}
use noitu.Wsapi.Room.Say.{broadcast_turn, broadcast_elimination}
use noitu.Wsapi.Room.Play.{
  Mark, mark_of, tell_out, broadcast_game_over, report_out, apply_eliminations, after_engine,
  maybe_schedule_bot, open_game, start_engine, begin_game, resign_turn, handle_resign, claim_turn,
  handle_claim_dead_end, handle_turn_timer,
}
use noitu.Wsapi.Room.Words.{
  answer_submit, submit_turn, handle_submit, bot_gives_up, answer_bot, bot_turn, handle_bot_move,
}

-- What the room keeps of its game and of its conversation.
abbrev pub View : Type 0
View = Option Engine × List ChatEntry × ℕ

abbrev pub view : Room → View
view r = (r.engine, r.chat, r.chat_seq)

view-stop_counting_live : (r : Room) → view (stop_counting_live r) ≡ view r
unfolding stop_counting_live
view-stop_counting_live r =
    if_split (λ (q : Room). view q ≡ view r) r.live_counted (λ l. refl) (λ l. refl)

pub view-broadcast_game_over : (e : Engine) (r : Room) → view (broadcast_game_over e r) ≡ view r
unfolding broadcast_game_over
view-broadcast_game_over e r = view-stop_counting_live r

pub view-tell_out :
    (e : Engine) (shown : List Text) (ps : List PlayerId) (r : Room)
    → view (tell_out e shown ps r) ≡ view r
unfolding tell_out broadcast_elimination broadcast
view-tell_out e shown [] r = refl
view-tell_out e shown (p ∷ ps) r = view-tell_out e shown ps (broadcast_elimination e shown p r)

module _ (d : RoomDictionary) where
  pub view-maybe_schedule_bot : (e : Engine) (r : Room) → view (maybe_schedule_bot d e r) ≡ view r
  unfolding maybe_schedule_bot emit
  view-maybe_schedule_bot e r =
      opt_split (λ (q : Room). view q ≡ view r) r.strategy (λ n. refl)
        (λ level n.
          if_split (λ (q : Room). view q ≡ view r) (e.over || not (same (turn e) bot_player))
            (λ o. refl) (λ o. refl))

  pub view-report_out :
      (before : Mark) (e : Engine) (r : Room) → view (report_out d before e r) ≡ view r
  unfolding report_out broadcast_turn broadcast next_seq
  view-report_out before e r =
      if_split (λ (q : Room). view q ≡ view r) (length e.out_order == before.out) (λ s. refl)
        λ some_out.
          if_split (λ (q : Room). view q ≡ view r) e.over
            (λ o. view-broadcast_game_over e _ ∙ view-tell_out e _ _ r)
            (λ o.
              if_split (λ (q : Room). view q ≡ view r) (same (turn e) before.to_act)
                (λ s. view-tell_out e _ _ r) (λ s. view-tell_out e _ _ r))

-- A property of the room that a start hands back, if it does.
abbrev pub OfRoom : (Room → Type 0) → Option Room → Type 0
OfRoom P none = Unit
OfRoom P (some r) = P r

started_split :
    (Q : Option Room → Type 0) (s : Started) {f : Engine → Option Room}
    → Q none
    → ((e : Engine) → s ≡ started e → Q (f e))
    → Q (elim s [ refused why ↦ none | started e ↦ f e ])
started_split Q (refused why) n h = n
started_split Q (started e) n h = h e refl

-- A start fails, or opens a game on an engine that `New` made.
pub begin_game_split :
    (d : RoomDictionary) (Q : Option Room → Type 0) (w : Surroundings) (r : Room)
    → Q none
    → ((opening : Text) (order : List PlayerId) (e : Engine)
        → new d.base order opening r.turn_limit w.now ≡ started e
        → Q (some (open_game d e opening r)))
    → Q (begin_game d w r)
unfolding begin_game start_engine
begin_game_split d Q w r n h =
    opt_split Q w.opening (λ c. n)
      λ opening c.
        started_split Q (new d.base _ opening r.turn_limit w.now) n
          (λ e starts. h opening _ e starts)

-- A property that starting a game gives, and that every operation of the engine and of the
-- conversation keeps.
pub record IsClosed (d : RoomDictionary) (u : Unicode) (P : View → Type 0) : Type 0 where
  pub at_new :
      (players : List PlayerId) (first_word : Text) (turn_limit now : ℕ) (e : Engine)
      (before : Option Engine) (chat : List ChatEntry) (seq : ℕ)
      → new d.base players first_word turn_limit now ≡ started e
      → P (before, chat, seq)
      → P (some e, chat, seq)
  pub at_step :
      (e : Engine) (i : Input) (chat : List ChatEntry) (seq : ℕ)
      → P (some e, chat, seq)
      → P (some (step d.base u e i), chat, seq)
  pub at_scrub :
      (p : PlayerId) (o : Option Engine) (chat : List ChatEntry) (seq : ℕ)
      → P (o, chat, seq)
      → P (o, scrub p chat, seq)
  pub at_line :
      (entry : ChatEntry) (o : Option Engine) (chat : List ChatEntry) (seq : ℕ)
      → entry.seq ≡ seq + 1
      → P (o, chat, seq)
      → P (o, trim_chat (chat ++ entry ∷ []), seq + 1)

-- The property holds of the room.
abbrev pub Keeps : (View → Type 0) → Room → Type 0
Keeps P r = P (view r)

-- The property holds of the room with that game.
abbrev pub With : (View → Type 0) → Room → Engine → Type 0
With P r e = P (some e, r.chat, r.chat_seq)

module _ (d : RoomDictionary) (u : Unicode) (P : View → Type 0) (c : IsClosed d u P) where
  same_view : (r q : Room) → view q ≡ view r → Keeps P r → Keeps P q
  same_view r q is h = subst P (sym is) h

  pub report_out-Keeps :
      (before : Mark) (e : Engine) (r : Room) → Keeps P r → Keeps P (report_out d before e r)
  report_out-Keeps before e r h =
      same_view r (report_out d before e r) (view-report_out d before e r) h

  pub apply_eliminations-Keeps :
      (before : Mark) (r : Room) → Keeps P r → Keeps P (apply_eliminations d before r)
  unfolding apply_eliminations
  apply_eliminations-Keeps before r h =
      opt_split (Keeps P) r.engine (λ n. h) (λ e n. report_out-Keeps before e r h)

  pub after_engine-Keeps :
      (e e' : Engine) (r : Room) → With P r e' → Keeps P (after_engine d e e' r)
  unfolding after_engine
  after_engine-Keeps e e' r h =
      report_out-Keeps (mark_of (some e)) e' (record r { engine = some e' }) h

  open_game-Keeps :
      (e : Engine) (opening : Text) (r : Room) → With P r e → Keeps P (open_game d e opening r)
  unfolding open_game broadcast next_seq
  open_game-Keeps e opening r h = subst P (sym (view-maybe_schedule_bot d e _)) h

  pub begin_game-Keeps :
      (w : Surroundings) (r : Room) → Keeps P r → OfRoom (Keeps P) (begin_game d w r)
  begin_game-Keeps w r h = begin_game_split d (OfRoom (Keeps P)) w r tt λ opening order e starts.
      open_game-Keeps e opening r
        (c.at_new order opening r.turn_limit w.now e r.engine r.chat r.chat_seq starts h)

  pub begun-Keeps :
      (w : Surroundings) (r q : Room)
      → Keeps P r
      → Keeps P q
      → Keeps P (elim (begin_game d w r) [ none ↦ q | some begun ↦ begun ])
  begun-Keeps w r q before h =
      opt_split (Keeps P) (begin_game d w r) (λ n. h)
        (λ begun n. subst (OfRoom (Keeps P)) n (begin_game-Keeps w r before))

  pub With-engine : (r : Room) (e : Engine) → Keeps P r → r.engine ≡ some e → With P r e
  With-engine r e h is = subst (λ (o : Option Engine). P (o, r.chat, r.chat_seq)) is h
