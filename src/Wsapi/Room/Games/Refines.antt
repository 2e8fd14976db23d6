-- ===== src/Wsapi/Room/Games/Refines.antt =====
-- The game of a room is a game of the engine: one that `New` started, and what inputs made of it.
use mathlib.Core.Path.{subst}
use noitu.Prelude.{◌+◌, Option, none, ℕ, ◌≡◌, refl, sym, ◌∙◌, ap, List, [], ◌∷◌, ◌++◌, some, Text}
use noitu.Vietnamese.{Unicode}
use noitu.Game.State.{PlayerId}
use noitu.Game.Engine.{Engine}
use noitu.Game.Engine.Invariant.{IsValid}
use noitu.Game.Submit.{started, new}
use noitu.Game.Run.{Input, step, run}
use noitu.Game.Run.Chain.{IsChain, game_correct}
use noitu.Wsapi.Nickname.{Tables}
use noitu.Wsapi.Room.{RoomDictionary, Surroundings, new_room, ChatEntry}
use noitu.Wsapi.Room.Loop.{RoomInput, rounds}
use noitu.Wsapi.Room.Chat.{trim_chat}
use noitu.Wsapi.Room.Lobby.{scrub}
use noitu.Wsapi.Room.Games.{IsClosed, View}
use noitu.Wsapi.Room.Games.Rounds.{rounds-Keeps}

-- An engine that `New` started, after some inputs.
pub record IsPlayed (d : RoomDictionary) (u : Unicode) (e : Engine) : Type 0 where
  pub players : List PlayerId
  pub first_word : Text
  pub turn_limit : ℕ
  pub at : ℕ
  pub begun : Engine
  pub inputs : List Input
  pub starts : new d.base players first_word turn_limit at ≡ started begun
  pub played : e ≡ run d.base u begun inputs

module _ (d : RoomDictionary) (u : Unicode) where
  run-snoc :
      (is : List Input) (i : Input) (e : Engine)
      → run d.base u e (is ++ i ∷ []) ≡ step d.base u (run d.base u e is) i
  unfolding run
  run-snoc [] i e = refl
  run-snoc (j ∷ is) i e = run-snoc is i (step d.base u e j)

  -- A room that holds no game, or one that was played.
  abbrev pub PlayedView : View → Type 0
  PlayedView (none, chat, seq) = Unit
  PlayedView (some e, chat, seq) = IsPlayed d u e

  played_apart :
      (o : Option Engine) (chat chat' : List ChatEntry) (seq seq' : ℕ)
      → PlayedView (o, chat, seq)
      → PlayedView (o, chat', seq')
  played_apart none chat chat' seq seq' h = h
  played_apart (some e) chat chat' seq seq' h = h

  IsPlayed-IsClosed : IsClosed d u PlayedView
  unfolding run
  IsPlayed-IsClosed = record {
    at_new = λ players first_word turn_limit now e before chat seq starts h. record {
      players = players;
      first_word = first_word;
      turn_limit = turn_limit;
      at = now;
      begun = e;
      inputs = [];
      starts = starts;
      played = refl;
    };
    at_step = λ e i chat seq h. record {
      players = h.players;
      first_word = h.first_word;
      turn_limit = h.turn_limit;
      at = h.at;
      begun = h.begun;
      inputs = h.inputs ++ i ∷ [];
      starts = h.starts;
      played = ap (λ (x : Engine). step d.base u x i) h.played ∙ sym (run-snoc h.inputs i h.begun);
    };
    at_scrub = λ p o chat seq. played_apart o chat (scrub p chat) seq seq;
    at_line =
        λ entry o chat seq next. played_apart o chat (trim_chat (chat ++ entry ∷ [])) seq (seq + 1);
  }

  module _ (t : Tables) (code : Text) (turn_limit grace_for : ℕ)
      (is : List (Surroundings × RoomInput)) (e : Engine)
      (here : (rounds d u t is (new_room code turn_limit grace_for)).engine ≡ some e) where
    -- Whatever inputs a new room is given, in any order and from any connections, the game that
    -- it holds, if it holds one, is a game that New started over the dictionary, followed by
    -- words, clock ticks, dead-end claims and resignations.
    pub rounds-IsPlayed : IsPlayed d u e
    unfolding new_room
    rounds-IsPlayed =
        let r = rounds d u t is (new_room code turn_limit grace_for) in
        subst (λ (o : Option Engine). PlayedView (o, r.chat, r.chat_seq)) here
          (rounds-Keeps d u t PlayedView IsPlayed-IsClosed is (new_room code turn_limit grace_for)
            tt)

    -- Whatever inputs a new room is given, the game that it holds, if it holds one, has a valid
    -- table, and its words form a chain from some opening.
    pub rounds_correct : (opening : Text) × IsValid e × IsChain d.base opening e
    rounds_correct =
        let h = rounds-IsPlayed in
        let (opening, r, v, c) =
          game_correct d.base u h.players h.first_word h.turn_limit h.at h.inputs h.starts in
        (opening, subst IsValid (sym h.played) v, subst (IsChain d.base opening) (sym h.played) c)
