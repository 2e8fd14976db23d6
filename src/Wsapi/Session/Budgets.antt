-- ===== src/Wsapi/Session/Budgets.antt =====
-- The budget of word reports, over everything that happens to a connection.
use mathlib.Core.Path.{subst}
use noitu.Prelude.{
  ℕ, ◌≡◌, refl, sym, ◌∙◌, Bool, true, false, List, [], ◌∷◌, Option, none, some, Text, if_split,
  opt_split, arith, Bool-cases, inl, inr,
}
use noitu.Vietnamese.{Unicode}
use noitu.Wsapi.Nickname.{Tables}
use noitu.Wsapi.RateLimit.{Tokens, KeyedLimiter, spend}
use noitu.Wsapi.Message.{ErrCode}
use noitu.Wsapi.Room.{Session}
use noitu.Wsapi.Hub.{Hub}
use noitu.Wsapi.Session.{
  Connection, Desk, Rates, new_connection, attach_seat, release_seat, bound_to, reply,
}
use noitu.Wsapi.Session.Dispatch.{ClientMessage, DispatchError, DeskView, dispatch, refuse_with}
use noitu.Wsapi.Session.Serve.{
  Frame, ReadError, SessionEvent, frame_read, seated, released, others_call, decode_frame,
  bind_seat, hand_over, give_up_notice, take_at, notice_taken, notice_dropped, leave_seat,
  read_error, read_message, read_frame, on_event, serve,
}
use noitu.Wsapi.Session.Face.{IsFit}
use noitu.Wsapi.Session.Handshake.{greets, dispatch-IsGated}

-- Reports within their budget, and none before the handshake.
pub record IsSound (greeted : Bool) (words : List Text) : Type 0 where
  pub fit : IsFit words
  pub quiet : greeted ≡ false → words ≡ []

IsSound-on :
    {greeted : Bool} {words : List Text} → greeted ≡ true → IsFit words → IsSound greeted words
IsSound-on on f = record { fit = f; quiet = λ off. absurd (ground arith) }

module _ (k : Tokens) where
  abbrev pub Sound : Desk k → Type 0
  Sound st = IsSound st.conn.greeted st.conn.reported_words

  -- A desk before its connection sent anything.
  abbrev pub new_desk :
      Rates k → Session → Text → Text → Text → ℕ → Hub → KeyedLimiter k → KeyedLimiter k → Desk k
  new_desk rates sess id token remote_ip now h join_limiter room_limiters = record {
    conn = new_connection k rates sess id token remote_ip now;
    hub = h;
    notices = [];
    join_limiter = join_limiter;
    room_limiters = room_limiters;
  }

  refuse_with-Sound : (code : ErrCode) (st : Desk k) → Sound st → Sound (refuse_with k code st)
  unfolding refuse_with reply
  refuse_with-Sound code st x = x

  leave_seat-Sound : (code : Text) (st : Desk k) → Sound st → Sound (leave_seat k code st)
  unfolding leave_seat release_seat
  leave_seat-Sound code st x =
      if_split (λ (c : Connection k). IsSound c.greeted c.reported_words)
        (bound_to k code st.conn.room) (λ y. x) (λ n. x)

  read_error_first : (a : Desk k × Option DispatchError) → (read_error k a).0 ≡ a.0
  unfolding read_error
  read_error_first (st, none) = refl
  read_error_first (st, some e) = refl

  module _ (t : Tables) (denylisted : Text → Bool) (u : Unicode)
      (unmarshal : Text → Option ClientMessage) where
    dispatch-Sound :
        (v : DeskView) (m : ClientMessage) (st : Desk k)
        → Sound st
        → Sound (dispatch k t denylisted u v m st).0
    dispatch-Sound v m st x =
        let gated = dispatch-IsGated k t denylisted u v m st in
        elim (Bool-cases st.conn.greeted) [
          | inl on ↦
              let kept = gated.kept on in IsSound-on (kept.same_greeted ∙ on) (kept.fit x.fit)
          | inr off ↦ elim (Bool-cases (greets m)) [
            | inl y ↦
                let known = (gated.admitted off y).0 in
                IsSound-on known.greeted (known.words_fit x.fit)
            | inr un ↦ subst Sound (sym (gated.refused off un)) (refuse_with-Sound _ st x)
          ]
        ]

    read_frame-Sound :
        (v : DeskView) (f : Frame) (st : Desk k)
        → Sound st
        → Sound (read_frame k t denylisted u unmarshal v f st).0
    unfolding read_frame read_message
    read_frame-Sound v f st x =
        let Good : Desk k × Option ReadError → Type 0 =
          λ (a : Desk k × Option ReadError). Sound a.0 in
        let paid = spend k st.conn.frame_limiter v.now in
        let charged : Desk k = record st { conn = record st.conn { frame_limiter = paid.0 } } in
        if_split Good paid.1
          (λ y.
            opt_split Good (decode_frame unmarshal f) (λ n. refuse_with-Sound _ charged x)
              (λ m is.
                subst Sound (sym (read_error_first (dispatch k t denylisted u v m charged)))
                  (dispatch-Sound v m charged x)))
          (λ n. refuse_with-Sound _ charged x)

    on_event-Sound :
        (e : SessionEvent) (st : Desk k)
        → Sound st
        → Sound (on_event k t denylisted u unmarshal e st).0
    unfolding on_event bind_seat attach_seat hand_over give_up_notice
    on_event-Sound (frame_read v f) st x = read_frame-Sound v f st x
    on_event-Sound (seated code p) st x = x
    on_event-Sound (notice_taken n) st x =
        opt_split (λ (st' : Desk k). Sound st') (take_at n st.notices) (λ e. x) (λ found e. x)
    on_event-Sound (notice_dropped n) st x =
        opt_split (λ (st' : Desk k). Sound st') (take_at n st.notices) (λ e. x) (λ found e. x)
    on_event-Sound (released code) st x = leave_seat-Sound code st x
    on_event-Sound (others_call cs) st x = x

    serve-Sound :
        (es : List SessionEvent) (st : Desk k)
        → Sound st
        → Sound (serve k t denylisted u unmarshal es st).0
    unfolding serve
    serve-Sound [] st x = x
    serve-Sound (e ∷ es) st x =
        opt_split (λ (a : Desk k × Option ReadError). Sound a.0)
          (on_event k t denylisted u unmarshal e st).1
          (λ n. serve-Sound es _ (on_event-Sound e st x)) (λ err is. on_event-Sound e st x)

    -- Whatever frames a new connection sends and whatever its rooms and other connections do in
    -- between, the words that it has reported are at most 20 and differ, and there are none
    -- before the handshake.
    pub serve-IsSound :
        (es : List SessionEvent) (rates : Rates k) (sess : Session) (id token remote_ip : Text)
        (now : ℕ) (h : Hub) (join_limiter room_limiters : KeyedLimiter k)
        → Sound
            (serve k t denylisted u unmarshal es
              (new_desk rates sess id token remote_ip now h join_limiter room_limiters)).0
    unfolding new_connection
    serve-IsSound es rates sess id token remote_ip now h join_limiter room_limiters =
        serve-Sound es _
          (record { fit = record { bounded = omega arith; differ = refl }; quiet = λ off. refl })
