-- ===== src/Wsapi/Session/Handshake.antt =====
-- The handshake: what an unknown connection may do, and what a known one cannot undo.
use noitu.Prelude.{
  ℕ, ◌≡◌, ◌≢◌, ◌↔◌, refl, ap, ◌∙◌, Bool, true, false, not, ◌&&◌, List, [], ◌∷◌, Option, none, some,
  Text, same_refl, lookup, insert, ◌==◌, if◌then◌else◌, if_split, arith,
}
use noitu.Vietnamese.{Unicode}
use noitu.Wsapi.Nickname.{Tables}
use noitu.Wsapi.RateLimit.{Tokens}
use noitu.Wsapi.Message.{handshake_required, protocol_version_mismatch, protocol_version}
use noitu.Wsapi.Room.{Session}
use noitu.Wsapi.Hub.{register}
use noitu.Wsapi.Session.{Desk, reply}
use noitu.Wsapi.Session.Dispatch.{
  ClientMessage, DispatchError, DeskView, refuse_with, greet, handle_hello, route, is_hello,
  dispatch, hello,
}
use noitu.Wsapi.Session.Face.{IsFit, IsKept, face, refuse_with-Keeps}
use noitu.Wsapi.Session.Kept.{answer_token-Keeps, route-Keeps}

-- Whether a message is a hello of this protocol's version.
abbrev pub greets : ClientMessage → Bool
greets (hello version nickname token) = version == protocol_version
greets _ = false

lookup-insert :
    (k : Text) (s : Session) (m : List (Text × Session)) → lookup k (insert k s m) ≡ some s
unfolding lookup insert
lookup-insert k s [] = ground (arith, same_refl k)
lookup-insert k s ((i, c) ∷ m) = ground (arith, same_refl k, lookup-insert k s m)

module _ (k : Tokens) where
  -- A connection that is known: greeted, named, and registered by its token.
  pub record IsKnown (st st' : Desk k) : Type 0 where
    pub greeted : st'.conn.greeted ≡ true
    pub same_seat : st'.conn.room ≡ st.conn.room
    pub registered : lookup st.conn.resume_token st'.hub.sessions ≡ some st.conn.sess
    pub words_fit : IsFit st.conn.reported_words → IsFit st'.conn.reported_words

  module _ (t : Tables) (denylisted : Text → Bool) (u : Unicode) where
    -- What a message does to an unknown connection, and to a known one.
    pub record IsGated (v : DeskView) (m : ClientMessage) (st : Desk k)
        (after : Desk k × Option DispatchError) : Type 0 where
      pub refused :
          st.conn.greeted ≡ false
          → greets m ≡ false
          → after.0
            ≡ refuse_with k
                (if is_hello m then protocol_version_mismatch else handshake_required)
                st
      pub ended : st.conn.greeted ≡ false → greets m ≡ false → after.1 ≢ none
      pub admitted :
          st.conn.greeted ≡ false → greets m ≡ true → IsKnown st after.0 × (after.1 ≡ none)
      pub kept : st.conn.greeted ≡ true → IsKept (face k st) (face k after.0)
      pub repeated : st.conn.greeted ≡ true → (after.1 ≡ none) ↔ (is_hello m ≡ false)

    greet-IsKnown :
        (v : DeskView) (nickname token : Text) (st : Desk k)
        → IsKnown st (greet k t denylisted u v nickname token st)
    unfolding greet register reply
    greet-IsKnown v nickname token st =
        let kept = answer_token-Keeps k v token _ _ in
        record {
          greeted = kept.same_greeted;
          same_seat = kept.same_room;
          registered =
              ap (lookup st.conn.resume_token) kept.same_sessions
              ∙ lookup-insert st.conn.resume_token st.conn.sess st.hub.sessions;
          words_fit = kept.fit;
        }

    route_fine :
        (v : DeskView) (m : ClientMessage) (st : Desk k)
        → is_hello m ≡ false
        → (route k t denylisted u v m st).1 ≡ none
    unfolding route is_hello
    route_fine v (hello version nickname token) st after = absurd (ground arith)
    route_fine v _ st after = refl

    not_none : {A : Type 0} {o : Option A} {a : A} → o ≡ some a → o ≢ none
    not_none is n = absurd (ground arith)

    -- The arm of a hello, known connection or not.
    hello-IsGated :
        (v : DeskView) (version : ℕ) (nickname token : Text) (st : Desk k)
        → IsGated v
            (hello version nickname token)
            st
            (handle_hello k t denylisted u v version nickname token st)
    unfolding handle_hello is_hello
    hello-IsGated v version nickname token st =
        let m = hello version nickname token in
        if_split (IsGated v m st) (not (version == protocol_version))
          (λ n. record {
            refused = λ off un. refl;
            ended = λ off un. not_none refl;
            admitted = λ off yes. absurd (ground arith);
            kept = λ on. refuse_with-Keeps k _ st;
            repeated = λ on. (λ q. absurd (ground arith), λ q. absurd (ground arith));
          })
          (λ y.
            if_split (IsGated v m st) st.conn.greeted
              (λ g. record {
                refused = λ off un. absurd (ground arith);
                ended = λ off un. not_none refl;
                admitted = λ off yes. absurd (ground arith);
                kept = λ on. refuse_with-Keeps k _ st;
                repeated = λ on. (λ q. absurd (ground arith), λ q. absurd (ground arith));
              })
              (λ g. record {
                refused = λ off un. absurd (ground arith);
                ended = λ off un. absurd (ground arith);
                admitted = λ off yes. (greet-IsKnown v nickname token st, refl);
                kept = λ on. absurd (ground arith);
                repeated = λ on. absurd (ground arith);
              }))

    plain_greets : (m : ClientMessage) → is_hello m ≡ false → greets m ≡ false
    unfolding is_hello
    plain_greets (hello version nickname token) after = absurd (ground arith)
    plain_greets _ after = refl

    plain-IsGated :
        (v : DeskView) (m : ClientMessage) (st : Desk k)
        → is_hello m ≡ false
        → IsGated v m st (dispatch k t denylisted u v m st)
    unfolding dispatch
    plain-IsGated v m st after =
        let silent = plain_greets m after in
        if_split (IsGated v m st) (not (is_hello m) && not st.conn.greeted)
          (λ n. record {
            refused = λ off un. rw after refl;
            ended = λ off un. not_none refl;
            admitted = λ off yes. absurd (ground arith);
            kept = λ on. absurd (ground arith);
            repeated = λ on. absurd (ground arith);
          })
          (λ y. record {
            refused = λ off un. absurd (ground arith);
            ended = λ off un. absurd (ground arith);
            admitted = λ off yes. absurd (ground arith);
            kept = λ on. route-Keeps k t denylisted u v m st after;
            repeated = λ on. (λ q. after, λ q. route_fine v m st after);
          })

    -- On a connection that is not greeted, any message but a hello of this version changes
    -- nothing, is answered that the handshake is required, or that the version of a hello does
    -- not match, and ends the connection; a hello of this version greets it, registers its token,
    -- and leaves its seat as it was. A greeted connection keeps its session, token, seat,
    -- nickname and the registered tokens through any message, and exactly a hello ends it.
    pub dispatch-IsGated :
        (v : DeskView) (m : ClientMessage) (st : Desk k)
        → IsGated v m st (dispatch k t denylisted u v m st)
    unfolding dispatch route is_hello
    dispatch-IsGated v (hello version nickname token) st = hello-IsGated v version nickname token st
    dispatch-IsGated v _ st = plain-IsGated v _ st refl
