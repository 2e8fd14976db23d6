-- ===== src/Wsapi/RateLimit.antt =====
-- server/internal/wsapi/ratelimit.go: token buckets, and one bucket for each key.
-- Tokens are floating-point numbers, so their type and operations are a parameter; the mutexes are
-- left out, since each call holds its lock from start to end.
use noitu.Prelude.{
  ℕ, ◌-◌, ◌≡◌, refl, Bool, true, false, not, List, [], ◌∷◌, none, some, arith, Text, same, same_iff,
  lookup, insert, ltb, if◌then◌else◌, keep,
}

pub record Tokens : Type 1 where
  pub F : Type 0
  -- `float64(capacity)`.
  pub of_nat : ℕ → F
  -- `min(capacity, tokens + elapsed.Seconds() * perSec)`.
  pub refill : F → F → ℕ → F → F
  -- `tokens < 1`.
  pub below_one : F → Bool
  pub minus_one : F → F

module _ (t : Tokens) where
  open t use {F}

  pub record Bucket : Type 0 where
    pub tokens : F
    pub capacity : F
    pub per_sec : F
    pub last : ℕ

  unfoldable pub new_bucket : F → ℕ → ℕ → Bucket
  new_bucket per_sec capacity now = record {
    tokens = t.of_nat capacity;
    capacity = t.of_nat capacity;
    per_sec = per_sec;
    last = now;
  }

  -- `bucket.allow`.
  unfoldable pub spend : Bucket → ℕ → Bucket × Bool
  spend b now =
      let filled : Bucket =
        if ltb b.last now
        then record b { tokens = t.refill b.capacity b.tokens (now - b.last) b.per_sec; last = now }
        else b in
      if t.below_one filled.tokens
      then (filled, false)
      else (record filled { tokens = t.minus_one filled.tokens }, true)

  pub record KeyedLimiter : Type 0 where
    pub buckets : List (Text × Bucket)
    pub per_sec : F
    pub capacity : ℕ
    pub idle_for : ℕ

  unfoldable pub new_keyed_limiter : F → ℕ → ℕ → KeyedLimiter
  new_keyed_limiter per_sec capacity idle_for = record {
    buckets = [];
    per_sec = per_sec;
    capacity = capacity;
    idle_for = idle_for;
  }

  -- The bucket of a key, a full one where there is none.
  unfoldable pub bucket_of : KeyedLimiter → Text → ℕ → Bucket
  bucket_of l key now = elim (lookup key l.buckets) [
    | none ↦ new_bucket l.per_sec l.capacity now
    | some b ↦ b
  ]

  -- `keyedLimiter.allow`.
  unfoldable pub allow : KeyedLimiter → Text → ℕ → KeyedLimiter × Bool
  allow l key now =
      let (b, allowed) = spend (bucket_of l key now) now in
      (record l { buckets = insert key b l.buckets }, allowed)

  unfoldable pub sweep : KeyedLimiter → ℕ → KeyedLimiter
  sweep l now = record l {
    buckets = keep (λ (e : Text × Bucket). not (ltb l.idle_for (now - e.1.last))) l.buckets;
  }

module _ (t : Tokens) where
  lookup-insert :
      (k j : Text) (b : Bucket t) (m : List (Text × Bucket t))
      → lookup j (insert k b m) ≡ (if same k j then some b else lookup j m)
  unfolding lookup insert
  lookup-insert k j b [] = refl
  lookup-insert k j b ((i, c) ∷ m) =
      ground (arith, same_iff k j, same_iff i k, same_iff i j, lookup-insert k j b m)

  -- After a call for one key, that key's bucket is its old one, or a new full one, with the call
  -- spent on it, and the bucket of every other key is as it was.
  pub lookup-allow :
      (l : KeyedLimiter t) (key other : Text) (now : ℕ)
      → lookup other (allow t l key now).0.buckets ≡ (
          if same key other
          then some (spend t (bucket_of t l key now) now).0
          else lookup other l.buckets)
  unfolding allow
  lookup-allow l key other now =
      lookup-insert key other (spend t (bucket_of t l key now) now).0 l.buckets
