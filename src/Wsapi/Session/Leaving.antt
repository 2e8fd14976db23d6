-- ===== src/Wsapi/Session/Leaving.antt =====
-- A connection that moves from room to room, and one that ends.
use noitu.Prelude.{
  ℕ, zero, suc, ◌+◌, Option-cases, inl, inr, ◌≡◌, refl, ap, ◌∙◌, true, false, List, [], ◌∷◌, ◌++◌,
  none, some, Text, same, same_refl, if_split, opt_split, arith,
}
use noitu.Game.State.{PlayerId}
use noitu.Wsapi.RateLimit.{Tokens}
use noitu.Wsapi.Room.{Session}
use noitu.Wsapi.Room.Loop.{RoomInput}
use noitu.Wsapi.Hub.{HubEffect, to_room, queued, drop_waiter, cancel_quick_match}
use noitu.Wsapi.Hub.Queue.{once_each}
use noitu.Wsapi.Session.{
  Binding, Connection, Desk, moved_from, attach_seat, bound_to, release_seat, leave_notice,
  gone_from,
}
use noitu.Wsapi.Session.Serve.{notify_rooms, take_at, hand_over, bind_seat, leave_seat, finish_run}
use noitu.Wsapi.Session.Notices.{
  told_gone, told_gone-append, held_seat, apart, times, times-append, told_gone_disconnect,
}

queued-drop_waiter_self :
    (s : Session) (ws : List Session) → once_each ws ≡ true → queued s (drop_waiter s ws) ≡ false
unfolding queued drop_waiter
queued-drop_waiter_self s [] h = refl
queued-drop_waiter_self s (w ∷ ws) h = ground (arith, queued-drop_waiter_self s ws)

-- A room binds the connection to a seat, or takes the pending notice at a place.
pub data Move : Type 0 where
  sits : Text → PlayerId → Move
  takes_notice : ℕ → Move

abbrev pub seats_of : List Move → List (Text × PlayerId)
seats_of [] = []
seats_of (sits code p ∷ ms) = (code, p) ∷ seats_of ms
seats_of (takes_notice n ∷ ms) = seats_of ms

module _ (k : Tokens) where
  -- The moves of a connection, one after the other.
  abbrev pub moves : List Move → Desk k → Desk k
  moves [] st = st
  moves (sits code p ∷ ms) st = moves ms (bind_seat k code p st)
  moves (takes_notice n ∷ ms) st = moves ms (hand_over k n st)

  -- How many notices that this session has gone from a seat were taken, or are pending.
  abbrev pub taken : Session → Text → PlayerId → Desk k → ℕ
  taken s code p st = times code p (told_gone s st.hub.log)

  abbrev pub pending : Session → Text → PlayerId → Desk k → ℕ
  pending s code p st = times code p (told_gone s (notify_rooms k st.notices))

  -- What is left of a connection that sat in these seats in turn, and has ended.
  pub record IsGone (seats : List (Text × PlayerId)) (st after : Desk k) : Type 0 where
    pub each_told :
        (code : Text) (p : PlayerId)
        → taken st.conn.sess code p after + pending st.conn.sess code p after
          ≡ (taken st.conn.sess code p st + pending st.conn.sess code p st)
            + times code p (held_seat st.conn.room ++ seats)
    pub waits_no_more : queued st.conn.sess after.hub.waiting ≡ false

  gone_from_told :
      (s : Session) (b : Binding) → told_gone s (notify_rooms k (gone_from k s b)) ≡ held_seat b
  unfolding gone_from notify_rooms
  gone_from_told s none = refl
  gone_from_told s (some (code, p)) = told_gone_disconnect s code p

  moved_from_told :
      (s : Session) (code : Text) (p : PlayerId) (rest : List (Text × PlayerId)) (b : Binding)
      → apart (held_seat b ++ (code, p) ∷ rest) ≡ true
      → told_gone s (notify_rooms k (moved_from k s code b)) ≡ held_seat b
  unfolding moved_from notify_rooms
  moved_from_told s code p rest none far = refl
  moved_from_told s code p rest (some (old, q)) far = ground arith

  apart_rest :
      (b : Binding) (seat : Text × PlayerId) (rest : List (Text × PlayerId))
      → apart (held_seat b ++ seat ∷ rest) ≡ true
      → apart (seat ∷ rest) ≡ true
  apart_rest none seat rest far = far
  apart_rest (some b) seat rest far = ground arith

  notify_rooms-append :
      (xs ys : List (Text × RoomInput))
      → notify_rooms k (xs ++ ys) ≡ notify_rooms k xs ++ notify_rooms k ys
  unfolding notify_rooms
  notify_rooms-append [] ys = refl
  notify_rooms-append ((code, i) ∷ xs) ys = ap (λ r. to_room code i ∷ r) (notify_rooms-append xs ys)

  -- How often pending notices name a seat.
  named : Session → Text → PlayerId → List (Text × RoomInput) → ℕ
  named s code p notices = times code p (told_gone s (notify_rooms k notices))

  named-append :
      (s : Session) (code : Text) (p : PlayerId) (xs ys : List (Text × RoomInput))
      → named s code p (xs ++ ys) ≡ named s code p xs + named s code p ys
  unfolding named
  named-append s code p xs ys =
      ap (λ l. times code p (told_gone s l)) (notify_rooms-append xs ys)
      ∙ ap (times code p) (told_gone-append s (notify_rooms k xs) (notify_rooms k ys))
      ∙ times-append code p (told_gone s (notify_rooms k xs)) (told_gone s (notify_rooms k ys))

  named-take_at :
      (s : Session) (code : Text) (p : PlayerId) (n : ℕ) (l : List (Text × RoomInput))
      (x : Text × RoomInput) (rest : List (Text × RoomInput))
      → take_at n l ≡ some (x, rest)
      → named s code p l ≡ named s code p (x ∷ []) + named s code p rest
  unfolding take_at
  named-take_at s code p n [] x rest h = absurd (ground arith)
  named-take_at s code p zero (y ∷ l) x rest h =
      let it : (y, l) ≡ (x, rest) = ground arith in
      ap (λ (q : (Text × RoomInput) × List (Text × RoomInput)). named s code p (q.0 ∷ q.1)) it
      ∙ named-append s code p (x ∷ []) rest
  named-take_at s code p (suc n) (y ∷ l) x rest h = elim (Option-cases (take_at n l)) [
    | inl e ↦ absurd (ground arith)
    | inr ((z, zs), e) ↦
        let sum = named-take_at s code p n l z zs e in
        let front = named-append s code p (y ∷ []) l in
        let back = named-append s code p (y ∷ []) zs in
        let moved : named s code p (y ∷ l) ≡ named s code p (z ∷ []) + named s code p (y ∷ zs) =
          omega (arith, sum, front, back) in
        let it : (z, y ∷ zs) ≡ (x, rest) = ground arith in
        moved
        ∙ ap
            (λ (q : (Text × RoomInput) × List (Text × RoomInput)).
              named s code p (q.0 ∷ []) + named s code p q.1)
            it
  ]

  -- Handing a notice over moves it from the pending ones to the taken ones.
  handed_sum :
      (s : Session) (code : Text) (p : PlayerId) (n : ℕ) (log : List HubEffect)
      (l : List (Text × RoomInput)) (x : Text × RoomInput) (rest : List (Text × RoomInput))
      → take_at n l ≡ some (x, rest)
      → times code p (told_gone s (log ++ notify_rooms k (x ∷ []))) + named s code p rest
        ≡ times code p (told_gone s log) + named s code p l
  unfolding named
  handed_sum s code p n log l x rest e =
      let handed =
        ap (times code p) (told_gone-append s log (notify_rooms k (x ∷ [])))
        ∙ times-append code p (told_gone s log) (told_gone s (notify_rooms k (x ∷ []))) in
      omega (arith, handed, named-take_at s code p n l x rest e)

  -- Where a connection is bound to seats one after the other, the one it holds first and no two
  -- in a row in the same room, while rooms take some of its pending notices in any order, and it
  -- then ends, every seat is named by as many notices more, taken or still pending, as it was
  -- held times; and, where nobody waited twice, the connection waits for no quick match.
  pub finish_run-IsGone :
      (ms : List Move) (st : Desk k)
      → apart (held_seat st.conn.room ++ seats_of ms) ≡ true
      → once_each st.hub.waiting ≡ true
      → IsGone (seats_of ms) st (finish_run k (moves ms st))
  unfolding finish_run cancel_quick_match leave_notice bind_seat attach_seat hand_over named
  finish_run-IsGone [] st far once = record {
    each_told = λ code p.
        let last =
          ap (times code p) (
            told_gone-append st.conn.sess st.hub.log
              (notify_rooms k (gone_from k st.conn.sess st.conn.room)))
          ∙ times-append code p (told_gone st.conn.sess st.hub.log)
              (told_gone st.conn.sess (notify_rooms k (gone_from k st.conn.sess st.conn.room))) in
        let left = ap (times code p) (gone_from_told st.conn.sess st.conn.room) in
        let all = times-append code p (held_seat st.conn.room) [] in omega (arith, last, left, all);
    waits_no_more = queued-drop_waiter_self st.conn.sess st.hub.waiting once;
  }
  finish_run-IsGone (sits room q ∷ ms) st far once =
      let moved = bind_seat k room q st in
      let gone = finish_run-IsGone ms moved (apart_rest st.conn.room (room, q) _ far) once in
      record {
        each_told = λ code p.
            let put =
              named-append st.conn.sess code p st.notices
                (moved_from k st.conn.sess room st.conn.room) in
            let left =
              ap (times code p)
                (moved_from_told st.conn.sess room q (seats_of ms) st.conn.room far) in
            let all = times-append code p (held_seat st.conn.room) ((room, q) ∷ seats_of ms) in
            omega (arith, gone.each_told code p, put, left, all);
        waits_no_more = gone.waits_no_more;
      }
  finish_run-IsGone (takes_notice n ∷ ms) st far once =
      opt_split (λ (sent : Desk k). IsGone (seats_of ms) st (finish_run k (moves ms sent)))
        (take_at n st.notices) (λ e. finish_run-IsGone ms st far once)
        λ found e.
          let sent : Desk k = record st {
            notices = found.1;
            hub = record st.hub { log = st.hub.log ++ notify_rooms k (found.0 ∷ []) };
          } in
          let gone = finish_run-IsGone ms sent far once in
          record {
            each_told = λ code p.
                let sum =
                  handed_sum st.conn.sess code p n st.hub.log st.notices found.0 found.1 e in
                omega (arith, gone.each_told code p, sum);
            waits_no_more = gone.waits_no_more;
          }

  -- A room that lets go of a connection it no longer has, and one that has it.
  pub record IsReleased (code : Text) (p : PlayerId) (old : Text) (st : Desk k) : Type 0 where
    pub late :
        same code old ≡ false → leave_seat k old (bind_seat k code p st) ≡ bind_seat k code p st
    pub in_time : (leave_seat k code (bind_seat k code p st)).conn.room ≡ none

  -- A late release changes nothing, and one in time unbinds the connection.
  pub leave_seat-IsReleased :
      (code : Text) (p : PlayerId) (old : Text) (st : Desk k) → IsReleased code p old st
  unfolding leave_seat bind_seat attach_seat release_seat bound_to
  leave_seat-IsReleased code p old st = record {
    late = λ other.
        let moved = bind_seat k code p st in
        if_split (λ (c : Connection k). record moved { conn = c } ≡ moved) (same code old)
          (λ y. absurd (ground arith)) (λ n. refl);
    in_time =
        if_split (λ (c : Connection k). c.room ≡ none) (same code code) (λ y. refl)
          (λ n. absurd (ground (arith, same_refl code)));
  }
