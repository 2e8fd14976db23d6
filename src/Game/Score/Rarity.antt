-- ===== src/Game/Score/Rarity.antt =====
-- The terms for speed and rarity.
use native.Mathlib.Nat.{
  pow-suc, pow-le-pow_right, div-le_of_le-mul, le-div_iff_mul-le, div-mul-le_self, le_trans,
}
use noitu.Prelude.{
  ℕ, zero, suc, ◌+◌, ◌-◌, ◌*◌, ◌/◌, ◌^◌, ◌≤◌, ◌<◌, ◌≡◌, refl, Option, none, some, arith, ltb, leb,
  leb→le, ◌==◌, if◌then◌else◌, Bool-cases, if_split, inl, inr,
}
use noitu.Game.Score.{bit_len_from, bit_len, speed_bonus, speed_points, rarity_points}

bit_len_from-zero : (f : ℕ) → bit_len_from f 0 ≡ 0
unfolding bit_len_from
bit_len_from-zero zero = refl
bit_len_from-zero (suc f) = refl

-- `bits.Len` brackets its argument by powers of two.
bit_len_from_bounds :
    (f n : ℕ) → n < 2 ^ f → (n < 2 ^ bit_len_from f n) × (0 < n → 2 ^ bit_len_from f n ≤ 2 * n)
unfolding bit_len_from
bit_len_from_bounds zero n h = (h, λ p. omega arith)
bit_len_from_bounds (suc f) n h =
    let (below, above) = bit_len_from_bounds f (n / 2) (omega (arith, pow-suc 2 f)) in
    elim (Bool-cases (n == 0)) [
      | inl z ↦ rw z (ground arith, λ p. ground arith)
      | inr s ↦
          rw s
            (omega (arith, pow-suc 2 (bit_len_from f (n / 2))), λ p. doubled p (n / 2) above refl)
    ]
  where
    doubled :
        0 < n
        → (k : ℕ) → (0 < k → 2 ^ bit_len_from f k ≤ 2 * k)
        → n / 2 ≡ k
        → 2 ^ suc (bit_len_from f (n / 2)) ≤ 2 * n
    doubled p zero above z = rw (z, bit_len_from-zero f) (omega arith)
    doubled p (suc k) above z =
        rw z (omega (arith, pow-suc 2 (bit_len_from f (suc k)), above (omega arith)))

exponent-lt : (a b : ℕ) → 2 ^ a < 2 ^ b → a < b
exponent-lt a b h = elim (Bool-cases (leb b a)) [
  | inl e ↦ absurd (omega (arith, pow-le-pow_right {n = 2} (omega arith) (leb→le b a e)))
  | inr e ↦ ground arith
]

-- For a 64-bit number of answers between two powers of two, 2 ^ h and 2 ^ (h + 1), the rarity
-- term is 15 less 3 for each doubling, and not below 0.
pub rarity_points-ladder :
    (n h : ℕ) → n < 2 ^ 64 → 2 ^ h ≤ n → n < 2 ^ (h + 1) → rarity_points (some n) ≡ 15 - 3 * h
unfolding rarity_points bit_len
rarity_points-ladder n h word low high =
    let pos : 0 < 2 ^ h = pow-le-pow_right {n = 2} (omega arith) {i = 0} {j = h} (omega arith) in
    let (below, above) = bit_len_from_bounds 64 n word in
    let up : h < bit_len_from 64 n = exponent-lt h _ (omega arith) in
    let step = pow-suc 2 (h + 1) in
    let down : bit_len_from 64 n < suc (h + 1) =
      exponent-lt (bit_len_from 64 n) (suc (h + 1)) (omega (arith, above (omega arith))) in
    ground arith

-- A larger number has no fewer bits.
bit_len_mono : (f n m : ℕ) → n ≤ m → bit_len_from f n ≤ bit_len_from f m
unfolding bit_len_from
bit_len_mono zero n m h = omega arith
bit_len_mono (suc f) n m h = ground (arith, bit_len_mono f (n / 2) (m / 2) (omega arith))

-- A syllable with fewer answers, but one at least, never pays a smaller rarity term.
pub rarity_points_antitone :
    (n m : ℕ) → 0 < n → n ≤ m → rarity_points (some m) ≤ rarity_points (some n)
unfolding rarity_points bit_len
rarity_points_antitone n m pos h = ground (arith, bit_len_mono 64 n m h)

-- The term is 15 for a single answer at most, and spent from 32 answers on.
pub rarity_points_spent : (n : ℕ) → 32 ≤ n → rarity_points (some n) ≡ 0
unfolding rarity_points bit_len
rarity_points_spent n h =
    let six : bit_len_from 64 32 ≡ 6 = unfold bit_len_from in refl in
    ground (arith, bit_len_mono 64 32 n h)

pub rarity_points-le : (o : Option ℕ) → rarity_points o ≤ 15
unfolding rarity_points
rarity_points-le none = omega arith
rarity_points-le (some n) = ground arith

speed_points-le : (d l now : ℕ) → 0 < l → speed_points d l now ≤ 10
unfolding speed_points
speed_points-le d l now pos =
    if_split (λ v. v ≤ 10) (leb d now) (λ z. omega arith) λ m. div-le_of_le-mul l (ground arith)

-- With a positive turn limit, the speed term is never larger for a later answer.
pub speed_points_antitone :
    (d l now later : ℕ) → 0 < l → now ≤ later → speed_points d l later ≤ speed_points d l now
unfolding speed_points
speed_points_antitone d l now later pos h =
    if_split (λ v. v ≤ speed_points d l now) (leb d later) (λ z. omega arith)
      λ m.
        if_split (λ v. speed_bonus * (if ltb l (d - later) then l else d - later) / l ≤ v)
          (leb d now) (λ z. absurd (ground arith))
          λ k. (le-div_iff_mul-le pos).1 (le_trans (div-mul-le_self _ l) (ground arith))
