-- ===== src/Wsapi/Room/Vacate.antt =====
-- What freeing a seat does to the room: the seat, the conversation, the owner and everybody else.
use noitu.Prelude.{
  ◌≡◌, ◌≢◌, refl, ◌∙◌, Bool, true, false, List, [], ◌∷◌, Option, none, some, same, same_iff,
  same_refl, if_split, arith, ltb, if◌then◌else◌,
}
use noitu.Game.State.{PlayerId}
use noitu.Wsapi.Room.{
  Session, Seat, ChatEntry, Room, emit, seat_in, seat_of, held, count_held, seated_count, occupied,
  occupies, is_session,
}
use noitu.Wsapi.Room.Lobby.{
  clear_seat, scrub, has_author, first_held, unready_first, promote, vacate,
}

-- Whether a connection sits in a seat of that player.
abbrev pub sits : List (Option Seat) → Session → PlayerId → Bool
sits seats sess p = elim (seat_in seats p) [ none ↦ false | some s ↦ is_session s.sess sess ]

pub seat_in-clear_seat :
    (p : PlayerId) (seats : List (Option Seat)) → seat_in (clear_seat p seats) p ≡ none
unfolding seat_in clear_seat
seat_in-clear_seat p [] = refl
seat_in-clear_seat p (none ∷ seats) = seat_in-clear_seat p seats
seat_in-clear_seat p (some s ∷ seats) = ground (arith, seat_in-clear_seat p seats)

pub seat_in-clear_seat_other :
    (p q : PlayerId) (seats : List (Option Seat))
    → same p q ≡ false
    → seat_in (clear_seat p seats) q ≡ seat_in seats q
unfolding seat_in clear_seat
seat_in-clear_seat_other p q [] other = refl
seat_in-clear_seat_other p q (none ∷ seats) other = seat_in-clear_seat_other p q seats other
seat_in-clear_seat_other p q (some s ∷ seats) other = ground (
  arith,
  seat_in-clear_seat_other p q seats other,
  same_iff s.id p,
  same_iff s.id q,
  same_iff p q,
)

seat_in-unready_first :
    (p : PlayerId) (seats : List (Option Seat))
    → seat_in seats p ≡ none
    → seat_in (unready_first seats) p ≡ none
unfolding seat_in unready_first
seat_in-unready_first p [] h = refl
seat_in-unready_first p (none ∷ seats) h = seat_in-unready_first p seats h
seat_in-unready_first p (some s ∷ seats) h = ground arith

sits-unready_first :
    (seats : List (Option Seat)) (sess : Session) (p : PlayerId)
    → sits (unready_first seats) sess p ≡ sits seats sess p
unfolding seat_in unready_first
sits-unready_first [] sess p = refl
sits-unready_first (none ∷ seats) sess p = sits-unready_first seats sess p
sits-unready_first (some s ∷ seats) sess p = ground arith

held-first_held :
    (seats : List (Option Seat))
    → held (seat_in (unready_first seats) (first_held seats))
      ≡ ltb 0 (count_held (unready_first seats))
unfolding seat_in unready_first first_held count_held held
held-first_held [] = refl
held-first_held (none ∷ seats) = ground (arith, held-first_held seats)
held-first_held (some s ∷ seats) = ground (arith, same_refl s.id)

has_author-scrub : (p : PlayerId) (es : List ChatEntry) → p ≢ [] → has_author p (scrub p es) ≡ false
unfolding has_author scrub
has_author-scrub p [] named = refl
has_author-scrub p (e ∷ es) named =
    ground (arith, has_author-scrub p es named, same_iff [] p, same_iff e.author p)

pub seats-vacate :
    (s : Seat) (r : Room)
    → (vacate s r).seats ≡ (
        if same r.owner s.id
        then unready_first (clear_seat s.id r.seats)
        else clear_seat s.id r.seats)
unfolding vacate promote emit
seats-vacate s r = ground arith

owner-vacate :
    (s : Seat) (r : Room)
    → (vacate s r).owner
      ≡ (if same r.owner s.id then first_held (clear_seat s.id r.seats) else r.owner)
unfolding vacate promote emit
owner-vacate s r = ground arith

pub chat-vacate : (s : Seat) (r : Room) → (vacate s r).chat ≡ scrub s.id r.chat
unfolding vacate promote emit
chat-vacate s r = ground arith

-- Freeing the seat `s` made the room `q` of the room `r`.
pub record IsVacated (s : Seat) (r q : Room) : Type 0 where
  pub freed : seat_of q s.id ≡ none
  pub unsigned : s.id ≢ [] → has_author s.id q.chat ≡ false
  pub stay :
      (sess : Session) (p : PlayerId) → same s.id p ≡ false → occupies q sess p ≡ occupies r sess p
  pub kept : same r.owner s.id ≡ false → q.owner ≡ r.owner
  pub heir : same r.owner s.id ≡ true → held (seat_of q q.owner) ≡ occupied q

module _ (s : Seat) (r : Room) where
  vacate-freed : seat_of (vacate s r) s.id ≡ none
  unfolding seat_of
  vacate-freed = rw (seats-vacate s r) (
      if_split (λ (x : List (Option Seat)). seat_in x s.id ≡ none) (same r.owner s.id)
        (λ h. seat_in-unready_first s.id _ (seat_in-clear_seat s.id r.seats))
        (λ h. seat_in-clear_seat s.id r.seats))

  vacate-stay :
      (sess : Session) (p : PlayerId)
      → same s.id p ≡ false
      → occupies (vacate s r) sess p ≡ occupies r sess p
  unfolding occupies seat_of
  vacate-stay sess p other =
      let stays : sits (clear_seat s.id r.seats) sess p ≡ sits r.seats sess p =
        rw (seat_in-clear_seat_other s.id p r.seats other, sits) refl in
      rw (seats-vacate s r) (
        if_split (λ (x : List (Option Seat)). sits x sess p ≡ sits r.seats sess p)
          (same r.owner s.id) (λ h. sits-unready_first (clear_seat s.id r.seats) sess p ∙ stays)
          (λ h. stays))

  vacate-heir :
      same r.owner s.id ≡ true
      → held (seat_of (vacate s r) (vacate s r).owner) ≡ occupied (vacate s r)
  unfolding seat_of occupied seated_count
  vacate-heir own =
      rw (seats-vacate s r)
        (rw (owner-vacate s r) (rw own (held-first_held (clear_seat s.id r.seats))))

  -- Freeing a seat leaves nobody in it and none of its player's lines signed with a nonempty id;
  -- every connection keeps its seat elsewhere; the owner stays, or, if it was the owner's seat,
  -- the new owner's seat is held exactly if any seat is.
  pub vacate-IsVacated : IsVacated s r (vacate s r)
  vacate-IsVacated = record {
    freed = vacate-freed;
    unsigned = λ named. rw (chat-vacate s r) (has_author-scrub s.id r.chat named);
    stay = vacate-stay;
    kept = λ other. rw (owner-vacate s r) (rw other refl);
    heir = vacate-heir;
  }
