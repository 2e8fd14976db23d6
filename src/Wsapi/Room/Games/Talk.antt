-- ===== src/Wsapi/Room/Games/Talk.antt =====
-- The conversation of a room: how long it gets, how its lines are numbered, and who is shown it.
use noitu.Prelude.{
  ℕ, ◌+◌, ◌-◌, ◌≤◌, ◌≡◌, refl, ◌∙◌, Bool, true, ◌&&◌, List, [], ◌∷◌, ◌++◌, Text, length, leb, ltb,
  arith, if_split, zero, suc,
}
use noitu.Vietnamese.{Unicode}
use noitu.Game.State.{PlayerId}
use noitu.Wsapi.Nickname.{Tables}
use noitu.Wsapi.Room.{Seat, ChatEntry, RoomDictionary, Surroundings, new_room, chat_history_limit}
use noitu.Wsapi.Room.Chat.{drop_chat, trim_chat, history_for}
use noitu.Wsapi.Room.Lobby.{scrub}
use noitu.Wsapi.Room.Loop.{RoomInput, rounds}
use noitu.Wsapi.Room.Games.{View, IsClosed}
use noitu.Wsapi.Room.Games.Rounds.{rounds-Keeps}

-- Whether the lines are numbered upwards, above `low` and up to `high`.
abbrev pub numbered : ℕ → ℕ → List ChatEntry → Bool
numbered low high [] = leb low high
numbered low high (e ∷ es) = ltb low e.seq && numbered e.seq high es

numbered-append :
    (low high : ℕ) (es : List ChatEntry) (e : ChatEntry)
    → e.seq ≡ high + 1
    → numbered low high es ≡ true
    → numbered low (high + 1) (es ++ e ∷ []) ≡ true
numbered-append low high [] e is h = ground arith
numbered-append low high (x ∷ es) e is h = ground (arith, numbered-append x.seq high es e is)

numbered_lower :
    (low high : ℕ) (es : List ChatEntry) (x : ℕ)
    → low ≤ x
    → numbered x high es ≡ true
    → numbered low high es ≡ true
numbered_lower low high [] x le h = ground arith
numbered_lower low high (e ∷ es) x le h = ground arith

numbered-drop_chat :
    (n low high : ℕ) (es : List ChatEntry)
    → numbered low high es ≡ true
    → numbered low high (drop_chat n es) ≡ true
unfolding drop_chat
numbered-drop_chat zero low high es h = h
numbered-drop_chat (suc n) low high [] h = h
numbered-drop_chat (suc n) low high (e ∷ es) h =
    numbered-drop_chat n low high es
      (numbered_lower low high es e.seq (ground arith) (ground arith))

numbered-scrub :
    (p : PlayerId) (low high : ℕ) (es : List ChatEntry)
    → numbered low high (scrub p es) ≡ numbered low high es
unfolding scrub
numbered-scrub p low high [] = refl
numbered-scrub p low high (e ∷ es) = ground (arith, numbered-scrub p e.seq high es)

length-scrub : (p : PlayerId) (es : List ChatEntry) → length (scrub p es) ≡ length es
unfolding scrub
length-scrub p [] = refl
length-scrub p (e ∷ es) = ground (arith, length-scrub p es)

length-drop_chat : (n : ℕ) (es : List ChatEntry) → length (drop_chat n es) ≡ length es - n
unfolding drop_chat
length-drop_chat zero es = ground arith
length-drop_chat (suc n) [] = ground arith
length-drop_chat (suc n) (e ∷ es) = ground (arith, length-drop_chat n es)

length-trim_chat : (es : List ChatEntry) → length (trim_chat es) ≤ chat_history_limit
unfolding trim_chat
length-trim_chat es = ground (arith, length-drop_chat (length es - chat_history_limit) es)

numbered-trim_chat :
    (low high : ℕ) (es : List ChatEntry)
    → numbered low high es ≡ true
    → numbered low high (trim_chat es) ≡ true
unfolding trim_chat
numbered-trim_chat low high es h =
    if_split (λ (x : List ChatEntry). numbered low high x ≡ true)
      (ltb chat_history_limit (length es))
      (λ o. numbered-drop_chat (length es - chat_history_limit) low high es h) (λ o. h)

-- The lines are few and numbered upwards, up to the last number given.
pub record IsTalk (chat : List ChatEntry) (seq : ℕ) : Type 0 where
  pub few : length chat ≤ chat_history_limit
  pub ordered : numbered 0 seq chat ≡ true

abbrev TalkView : View → Type 0
TalkView (o, chat, seq) = IsTalk chat seq

numbered_le : (low high : ℕ) (es : List ChatEntry) → numbered low high es ≡ true → low ≤ high
numbered_le low high [] h = ground arith
numbered_le low high (e ∷ es) h = ground (arith, numbered_le e.seq high es)

pub history_after :
    (s : Seat) (low high : ℕ) (es : List ChatEntry)
    → high ≤ s.chat_from
    → numbered low high es ≡ true
    → history_for s es ≡ []
unfolding history_for
history_after s low high [] le h = refl
history_after s low high (e ∷ es) le h =
    ground (arith, numbered_le e.seq high es, history_after s e.seq high es le)

module _ (d : RoomDictionary) (u : Unicode) where
  IsTalk-IsClosed : IsClosed d u TalkView
  IsTalk-IsClosed = record {
    at_new = λ players first_word turn_limit now e before chat seq starts h. h;
    at_step = λ e i chat seq h. h;
    at_scrub = λ p o chat seq h. record {
      few = rw (length-scrub p chat) h.few;
      ordered = numbered-scrub p 0 seq chat ∙ h.ordered;
    };
    at_line = λ entry o chat seq next h. record {
      few = length-trim_chat (chat ++ entry ∷ []);
      ordered = numbered-trim_chat 0 (seq + 1) _ (numbered-append 0 seq chat entry next h.ordered);
    };
  }

  module _ (t : Tables) (code : Text) (turn_limit grace_for : ℕ)
      (is : List (Surroundings × RoomInput)) where
    -- Whatever inputs a new room is given, its conversation has at most as many lines as the
    -- limit, numbered upwards from above zero to the number of lines that were ever said.
    pub rounds-IsTalk :
        IsTalk
          (rounds d u t is (new_room code turn_limit grace_for)).chat
          (rounds d u t is (new_room code turn_limit grace_for)).chat_seq
    unfolding new_room
    rounds-IsTalk =
        rounds-Keeps d u t TalkView IsTalk-IsClosed is (new_room code turn_limit grace_for)
          (record { few = omega arith; ordered = refl })
