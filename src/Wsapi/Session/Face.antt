-- ===== src/Wsapi/Session/Face.antt =====
-- What a connection is known by, and the answers and the inputs that leave it alone.
use mathlib.Core.Path.{subst}
use noitu.Prelude.{
  ◌≤◌, ◌≡◌, refl, sym, ap, Bool, true, not, List, Text, length, if◌then◌else◌, if_split, opt_split,
}
use noitu.Game.State.{PlayerId}
use noitu.Wsapi.RateLimit.{Tokens, spend, allow}
use noitu.Wsapi.Message.{ServerMessage, ErrCode}
use noitu.Wsapi.Room.{Session}
use noitu.Wsapi.Room.Loop.{RoomInput}
use noitu.Wsapi.Hub.{Hub, send_room}
use noitu.Wsapi.Hub.Queue.{codes_differ}
use noitu.Wsapi.Hub.Tokens.{send_room_sessions}
use noitu.Wsapi.Session.{Binding, Desk, reply, max_word_reports_per_session}
use noitu.Wsapi.Session.Dispatch.{
  DeskView, Budget, submit_budget, chat_budget, charge, refuse_with, forward, to_bound_room,
  to_room_input, allow_room, with_room_budget,
}

-- Reports within their limit, of words that differ.
pub record IsFit (words : List Text) : Type 0 where
  pub bounded : length words ≤ max_word_reports_per_session
  pub differ : codes_differ words ≡ true

-- What is known of a connection and of the tokens that are registered.
pub record Face : Type 0 where
  pub sess : Session
  pub token : Text
  pub room : Binding
  pub nick : Text
  pub greeted : Bool
  pub sessions : List (Text × Session)
  pub words : List Text

-- The same face, with reports that fit where they did.
pub record IsKept (f g : Face) : Type 0 where
  pub same_sess : g.sess ≡ f.sess
  pub same_token : g.token ≡ f.token
  pub same_room : g.room ≡ f.room
  pub same_nick : g.nick ≡ f.nick
  pub same_greeted : g.greeted ≡ f.greeted
  pub same_sessions : g.sessions ≡ f.sessions
  pub fit : IsFit f.words → IsFit g.words

pub IsKept-all : (f : Face) → IsKept f f
IsKept-all f = record {
  same_sess = refl;
  same_token = refl;
  same_room = refl;
  same_nick = refl;
  same_greeted = refl;
  same_sessions = refl;
  fit = λ x. x;
}

IsKept-but :
    (f g : Face) → record g { sessions = f.sessions } ≡ f → g.sessions ≡ f.sessions → IsKept f g
IsKept-but f g is same_sessions = record {
  same_sess = ap (λ x. x.sess) is;
  same_token = ap (λ x. x.token) is;
  same_room = ap (λ x. x.room) is;
  same_nick = ap (λ x. x.nick) is;
  same_greeted = ap (λ x. x.greeted) is;
  same_sessions = same_sessions;
  fit = λ x. subst IsFit (sym (ap (λ y. y.words) is)) x;
}

module _ (k : Tokens) where
  abbrev pub face : Desk k → Face
  face st = record {
    sess = st.conn.sess;
    token = st.conn.resume_token;
    room = st.conn.room;
    nick = st.conn.nick;
    greeted = st.conn.greeted;
    sessions = st.hub.sessions;
    words = st.conn.reported_words;
  }

  abbrev pub Keeps : Desk k → Desk k → Type 0
  Keeps st st' = IsKept (face st) (face st')

  pub Keeps-hub :
      (st : Desk k) (h : Hub) → h.sessions ≡ st.hub.sessions → Keeps st (record st { hub = h })
  Keeps-hub st h is = IsKept-but (face st) (face (record st { hub = h })) refl is

  pub refuse_with-Keeps : (code : ErrCode) (st : Desk k) → Keeps st (refuse_with k code st)
  unfolding refuse_with reply
  refuse_with-Keeps code st = IsKept-all (face st)

  pub reply-Keeps : (m : ServerMessage) (st : Desk k) → Keeps st (reply k m st)
  unfolding reply
  reply-Keeps m st = IsKept-all (face st)

  pub forward-Keeps :
      (v : DeskView) (dropped : ErrCode) (code : Text) (i : RoomInput) (st : Desk k)
      → Keeps st (forward k v dropped code i st)
  unfolding forward
  forward-Keeps v dropped code i st =
      if_split (λ st'. Keeps st st') (v.hub_view.takes code)
        (λ t.
          Keeps-hub st (send_room v.hub_view code i st.hub)
            (send_room_sessions v.hub_view code i st.hub))
        (λ t. refuse_with-Keeps dropped st)

  to_bound_room-Keeps :
      (v : DeskView) (not_in dropped : ErrCode) (build : PlayerId → RoomInput) (st : Desk k)
      → Keeps st (to_bound_room k v not_in dropped build st)
  unfolding to_bound_room
  to_bound_room-Keeps v not_in dropped build st =
      opt_split (λ st'. Keeps st st') st.conn.room (λ n. refuse_with-Keeps not_in st)
        λ b is. forward-Keeps v dropped b.0 (build b.1) st

  pub to_room_input-Keeps :
      (v : DeskView) (budget : Budget) (not_in dropped : ErrCode) (build : PlayerId → RoomInput)
      (st : Desk k)
      → Keeps st (to_room_input k v budget not_in dropped build st)
  unfolding to_room_input charge
  to_room_input-Keeps v submit_budget not_in dropped build st =
      let paid = spend k st.conn.submit_limiter v.now in
      let charged : Desk k = record st { conn = record st.conn { submit_limiter = paid.0 } } in
      if_split (λ st'. Keeps st st') paid.1
        (λ y. to_bound_room-Keeps v not_in dropped build charged) (λ n. refuse_with-Keeps _ charged)
  to_room_input-Keeps v chat_budget not_in dropped build st =
      let paid = spend k st.conn.chat_limiter v.now in
      let charged : Desk k = record st { conn = record st.conn { chat_limiter = paid.0 } } in
      if_split (λ st'. Keeps st st') paid.1
        (λ y. to_bound_room-Keeps v not_in dropped build charged) (λ n. refuse_with-Keeps _ charged)

  pub with_room_budget-Keeps :
      (v : DeskView) (act : Desk k → Desk k) (st : Desk k)
      → ((st' : Desk k) → Keeps st' (act st'))
      → Keeps st (with_room_budget k v act st)
  unfolding with_room_budget allow_room
  with_room_budget-Keeps v act st said =
      let own_paid = spend k st.conn.room_limiter v.now in
      let charged : Desk k = record st { conn = record st.conn { room_limiter = own_paid.0 } } in
      let address_paid = allow k st.room_limiters st.conn.remote_ip v.now in
      let both : Desk k = record charged { room_limiters = address_paid.0 } in
      let Said : Desk k × Bool → Type 0 =
        λ (a : Desk k × Bool). Keeps st (if a.1 then act a.0 else a.0) in
      if_split Said (not own_paid.1) (λ n. refuse_with-Keeps _ charged)
        (λ y. if_split Said address_paid.1 (λ t. said both) (λ f. refuse_with-Keeps _ both))
