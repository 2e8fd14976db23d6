-- ===== src/Wsapi/Hub/Queue.antt =====
-- The queue of a quick match, and the codes of rooms, as lists.
use mathlib.Core.Path.{subst}
use noitu.Prelude.{
  ℕ, zero, suc, ◌≤◌, ◌≡◌, ◌≢◌, refl, sym, ◌∙◌, ap, Bool, true, false, not, ◌&&◌, List, [], ◌∷◌,
  ◌++◌, Option, none, some, Text, contains, length, leb, ◌==◌, if_split, opt_split, arith, ◌⊎◌, inl,
  inr, Bool-cases,
}
use noitu.Wsapi.Room.{Session}
use noitu.Wsapi.Room.Loop.{RoomInput, create, join}
use noitu.Wsapi.Hub.{
  Hub, HubView, HubError, Opened, failed, opened, queued, next_waiter, drop_waiter, unused_from,
  unused_code, new_registered_room, send_room, seat_pair, quick_match, drop_code,
}

-- No session waits twice.
abbrev pub once_each : List Session → Bool
once_each [] = true
once_each (w ∷ ws) = not (queued w ws) && once_each ws

-- No code is registered twice.
abbrev pub codes_differ : List Text → Bool
codes_differ [] = true
codes_differ (c ∷ cs) = not (contains cs c) && codes_differ cs

-- Whether the connections of all these sessions have ended.
abbrev pub all_gone : (Session → Bool) → List Session → Bool
all_gone gone [] = true
all_gone gone (w ∷ ws) = gone w && all_gone gone ws

pub queued-drop_waiter :
    (s w : Session) (ws : List Session) → queued w ws ≡ false → queued w (drop_waiter s ws) ≡ false
unfolding queued drop_waiter
queued-drop_waiter s w [] h = refl
queued-drop_waiter s w (x ∷ ws) h = ground (arith, queued-drop_waiter s w ws)

pub once_each-drop_waiter :
    (s : Session) (ws : List Session) → once_each ws ≡ true → once_each (drop_waiter s ws) ≡ true
unfolding drop_waiter
once_each-drop_waiter s [] h = refl
once_each-drop_waiter s (w ∷ ws) h =
    ground (arith, once_each-drop_waiter s ws, queued-drop_waiter s w ws)

pub contains-drop_code :
    (code c : Text) (cs : List Text)
    → contains cs c ≡ false
    → contains (drop_code code cs) c ≡ false
unfolding contains drop_code
contains-drop_code code c [] h = refl
contains-drop_code code c (x ∷ cs) h = ground (arith, contains-drop_code code c cs)

pub codes_differ-drop_code :
    (code : Text) (cs : List Text)
    → codes_differ cs ≡ true
    → codes_differ (drop_code code cs) ≡ true
unfolding drop_code
codes_differ-drop_code code [] h = refl
codes_differ-drop_code code (c ∷ cs) h =
    ground (arith, codes_differ-drop_code code cs, contains-drop_code code c cs)

pub length-drop_code : (code : Text) (cs : List Text) → length (drop_code code cs) ≤ length cs
unfolding drop_code
length-drop_code code [] = omega arith
length-drop_code code (c ∷ cs) = ground (arith, length-drop_code code cs)

pub unused_from_new :
    (n : ℕ) (rooms draws : List Text) (code : Text)
    → unused_from n rooms draws ≡ some code
    → contains rooms code ≡ false
unfolding unused_from
unused_from_new zero rooms draws code h = ground arith
unused_from_new (suc n) rooms [] code h = ground arith
unused_from_new (suc n) rooms (c ∷ draws) code h =
    ground (arith, unused_from_new n rooms draws code)

-- What a search for a waiter found in the queue.
pub record IsFirst (gone : Session → Bool) (ws : List Session) (w : Session) (rest : List Session)
    : Type 0 where
  pub skipped : List Session
  pub splits : ws ≡ skipped ++ w ∷ rest
  pub ended : all_gone gone skipped ≡ true
  pub here : gone w ≡ false

pub next_waiter-IsFirst :
    (gone : Session → Bool) (ws : List Session) (w : Session) (rest : List Session)
    → next_waiter gone ws ≡ some (w, rest)
    → IsFirst gone ws w rest
unfolding next_waiter
next_waiter-IsFirst gone [] w rest h = ground arith
next_waiter-IsFirst gone (x ∷ ws) w rest h = elim (Bool-cases (gone x)) [
  | inl ended ↦
      let f = next_waiter-IsFirst gone ws w rest (ground arith) in
      record {
        skipped = x ∷ f.skipped;
        splits = ap (λ (xs : List Session). x ∷ xs) f.splits;
        ended = ground (arith, f.ended);
        here = f.here;
      }
  | inr here ↦ record { skipped = []; splits = ground arith; ended = refl; here = ground arith }
]

pub next_waiter-all_gone :
    (gone : Session → Bool) (ws : List Session)
    → next_waiter gone ws ≡ none
    → all_gone gone ws ≡ true
unfolding next_waiter
next_waiter-all_gone gone [] h = refl
next_waiter-all_gone gone (x ∷ ws) h = ground (arith, next_waiter-all_gone gone ws)

pub once_each-next_waiter :
    (gone : Session → Bool) (ws : List Session) (w : Session) (rest : List Session)
    → next_waiter gone ws ≡ some (w, rest)
    → once_each ws ≡ true
    → once_each rest ≡ true
unfolding next_waiter
once_each-next_waiter gone [] w rest h o = ground arith
once_each-next_waiter gone (x ∷ ws) w rest h o =
    ground (arith, once_each-next_waiter gone ws w rest)

pub queued-append :
    (s w : Session) (ws rest : List Session) → queued s (ws ++ w ∷ rest) ≡ false → (w == s) ≡ false
unfolding queued
queued-append s w [] rest h = ground arith
queued-append s w (x ∷ ws) rest h = queued-append s w ws rest (ground arith)

-- A pair for `s` was found, or nobody was there to pair it with.
pub record IsPaired (gone : Session → Bool) (s : Session) (ws rest : List Session) : Type 0 where
  pub waiter : Session
  pub first : IsFirst gone ws waiter rest
  pub another : waiter ≢ s

waiting-new_registered_room :
    (v : HubView) (h : Hub) → (new_registered_room v h).0.waiting ≡ h.waiting
unfolding new_registered_room
waiting-new_registered_room v h =
    let Same : Hub × Opened → Type 0 = λ (a : Hub × Opened). a.0.waiting ≡ h.waiting in
    if_split Same h.draining (λ x. refl)
      λ x.
        if_split Same (leb h.max_rooms (length h.rooms)) (λ f. refl)
          λ room. opt_split Same (unused_code h.rooms v.draws) (λ n. refl) (λ code n. refl)

waiting-send_room :
    (v : HubView) (code : Text) (i : RoomInput) (h : Hub)
    → (send_room v code i h).waiting ≡ h.waiting
unfolding send_room
waiting-send_room v code i h =
    if_split (λ (k : Hub). k.waiting ≡ h.waiting) (v.takes code) (λ t. refl) (λ t. refl)

waiting-seat_pair :
    (v : HubView) (waiter s : Session) (a : Hub × Opened)
    → (seat_pair v waiter s a).0.waiting ≡ a.0.waiting
unfolding seat_pair
waiting-seat_pair v waiter s (h, failed e) = refl
waiting-seat_pair v waiter s (h, opened code) =
    waiting-send_room v code (join s) _ ∙ waiting-send_room v code (create waiter true) _

another_session : (w s : Session) → (w == s) ≡ false → w ≢ s
another_session w s h = λ is. ground arith

-- On a hub that does not drain, a session that asks for a quick match and does not wait yet takes
-- the first waiter whose connection lives off the queue, with the ended ones before it, and that
-- waiter is another session; or no waiter lives, and the session is the whole queue.
pub quick_match_fair :
    (v : HubView) (s : Session) (h : Hub)
    → h.draining ≡ false
    → queued s h.waiting ≡ false
    → IsPaired v.gone s h.waiting (quick_match v s h).0.waiting
      ⊎ ((all_gone v.gone h.waiting ≡ true) × ((quick_match v s h).0.waiting ≡ s ∷ []))
unfolding quick_match
quick_match_fair v s h on out =
    let Fair : Hub × Option HubError → Type 0 = λ (a : Hub × Option HubError).
      IsPaired v.gone s h.waiting a.0.waiting
      ⊎ ((all_gone v.gone h.waiting ≡ true) × (a.0.waiting ≡ s ∷ [])) in
    if_split Fair h.draining (λ x. ground arith)
      λ x.
        if_split Fair (queued s h.waiting) (λ q. ground arith)
          λ q.
            opt_split Fair (next_waiter v.gone h.waiting)
              (λ n. inr (next_waiter-all_gone v.gone h.waiting n, refl))
              (λ p found.
                let f = next_waiter-IsFirst v.gone h.waiting p.0 p.1 found in
                let left =
                  waiting-seat_pair v p.0 s (new_registered_room v (record h { waiting = p.1 }))
                  ∙ waiting-new_registered_room v (record h { waiting = p.1 }) in
                inl (record {
                  waiter = p.0;
                  first =
                      subst (λ (xs : List Session). IsFirst v.gone h.waiting p.0 xs) (sym left) f;
                  another = another_session p.0 s (
                      queued-append s p.0 f.skipped p.1
                        (subst (λ (xs : List Session). queued s xs ≡ false) f.splits out));
                }))
