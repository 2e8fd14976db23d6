-- ===== src/Wsapi/Session/Outbox.antt =====
-- server/internal/wsapi/session.go: send and trySend. Encode calls the protobuf library, so it is a
-- parameter, which answers no frame where it fails.
use noitu.Prelude.{
  ℕ, ◌≤◌, ◌≡◌, refl, ap, ◌∙◌, Bool, true, false, not, ◌&&◌, ◌||◌, List, [], ◌∷◌, ◌++◌, Option, none,
  some, Text, length, length-append, ltb, if◌then◌else◌, if_split, opt_split, arith,
}
use noitu.Wsapi.Message.{ServerMessage}

abbrev pub outbox_cap : ℕ
outbox_cap = 32

-- The frames that wait for the writer, and whether the connection's context has ended.
pub record Outbox : Type 0 where
  pub frames : List Text
  pub closed : Bool

pub data Queued : Type 0 where
  queued_frame encode_failed session_closed outbox_full : Queued

module _ (encode : ServerMessage → Option Text) where
  -- `session.enqueue`. Where both are ready, a frame may go either way: `lucky` takes the outbox.
  unfoldable pub enqueue : Bool → ServerMessage → Outbox → Outbox × Queued
  enqueue lucky m o = elim (encode m) [
    | none ↦ (o, encode_failed)
    | some raw ↦
        if ltb (length o.frames) outbox_cap && (lucky || not o.closed)
        then (record o { frames = o.frames ++ raw ∷ [] }, queued_frame)
        else if o.closed
        then (o, session_closed)
        else (o, outbox_full)
  ]

  unfoldable pub close_if_full : Outbox × Queued → Outbox
  close_if_full (o, outbox_full) = record o { closed = true }
  close_if_full (o, queued_frame) = o
  close_if_full (o, encode_failed) = o
  close_if_full (o, session_closed) = o

  unfoldable pub send_frame : Bool → ServerMessage → Outbox → Outbox
  send_frame lucky m o = close_if_full (enqueue lucky m o)

  unfoldable pub is_queued : Queued → Bool
  is_queued queued_frame = true
  is_queued encode_failed = false
  is_queued session_closed = false
  is_queued outbox_full = false

  unfoldable pub try_send_frame : Bool → ServerMessage → Outbox → Outbox × Bool
  try_send_frame lucky m o = ((enqueue lucky m o).0, is_queued (enqueue lucky m o).1)

  -- What a frame finds: room in the outbox, an ended connection, or a full outbox.
  abbrev Sent : Outbox → Text → Outbox × Queued → Type 0
  Sent o raw a =
      (length a.0.frames ≤ outbox_cap)
      × (a.0.closed ≡ o.closed)
      × (is_queued a.1 ≡ true → a.0.frames ≡ o.frames ++ raw ∷ [])
      × (is_queued a.1 ≡ false → a.0.frames ≡ o.frames)
      × (o.closed ≡ false
          → is_queued a.1 ≡ false
          → (length o.frames ≡ outbox_cap) × ((close_if_full a).closed ≡ true))

  enqueue-Sent :
      (m : ServerMessage) (o : Outbox) (raw : Text) (lucky : Bool)
      → encode m ≡ some raw
      → length o.frames ≤ outbox_cap
      → Sent o raw (enqueue lucky m o)
  unfolding enqueue is_queued close_if_full
  enqueue-Sent m o raw lucky e le =
      opt_split (Sent o raw) (encode m) (λ n. ground arith)
        λ r met.
          let is : r ≡ raw = ground arith in
          if_split (Sent o raw) (ltb (length o.frames) outbox_cap && (lucky || not o.closed))
            (λ room. (
              ground (arith, length-append o.frames (r ∷ [])),
              refl,
              λ q. ap (λ (x : Text). o.frames ++ x ∷ []) is,
              λ q. ground arith,
              λ on q. ground arith,
            ))
            (λ no.
              if_split (Sent o raw) o.closed
                (λ ended. (le, refl, λ q. ground arith, λ q. refl, λ on q. ground arith))
                (λ on. (le, refl, λ q. ground arith, λ q. refl, λ on q. (ground arith, refl))))

  frames-close_if_full : (a : Outbox × Queued) → (close_if_full a).frames ≡ a.0.frames
  unfolding close_if_full
  frames-close_if_full (o, queued_frame) = refl
  frames-close_if_full (o, encode_failed) = refl
  frames-close_if_full (o, session_closed) = refl
  frames-close_if_full (o, outbox_full) = refl

  -- What sending the frame `raw` of a message does, by `send` and by `trySend`.
  pub record IsSent (m : ServerMessage) (o : Outbox) (raw : Text) (lucky : Bool) : Type 0 where
    pub bounded : length (send_frame lucky m o).frames ≤ outbox_cap
    pub same_frames : (send_frame lucky m o).frames ≡ (try_send_frame lucky m o).0.frames
    pub not_closed : (try_send_frame lucky m o).0.closed ≡ o.closed
    pub taken :
        (try_send_frame lucky m o).1 ≡ true → (send_frame lucky m o).frames ≡ o.frames ++ raw ∷ []
    pub dropped : (try_send_frame lucky m o).1 ≡ false → (send_frame lucky m o).frames ≡ o.frames
    pub closes :
        o.closed ≡ false
        → (try_send_frame lucky m o).1 ≡ false
        → (length o.frames ≡ outbox_cap) × ((send_frame lucky m o).closed ≡ true)

  -- The frame of a message that encodes, sent to an outbox within its limit, is put behind the
  -- others or dropped, and the outbox stays within the limit; where the connection lives, a frame
  -- is dropped only from a full outbox, and then send closes the connection and trySend does not.
  pub send_frame-IsSent :
      (m : ServerMessage) (o : Outbox) (raw : Text) (lucky : Bool)
      → encode m ≡ some raw
      → length o.frames ≤ outbox_cap
      → IsSent m o raw lucky
  unfolding send_frame try_send_frame
  send_frame-IsSent m o raw lucky e le =
      let same_ones = frames-close_if_full (enqueue lucky m o) in
      let (bounded, open_still, taken, dropped, closes) = enqueue-Sent m o raw lucky e le in
      record {
        bounded = rw same_ones bounded;
        same_frames = same_ones;
        not_closed = open_still;
        taken = λ q. same_ones ∙ taken q;
        dropped = λ q. same_ones ∙ dropped q;
        closes = closes;
      }
