-- ===== src/Game/Engine/Rotation.antt =====
-- Where `advance` lands.
use native.Mathlib.Nat.{mod-add-mod, add-mod_left, mod-eq_of_lt}
use noitu.Prelude.{
  ℕ, zero, suc, ◌+◌, ◌-◌, ◌%◌, ◌≤◌, ◌<◌, ◌≡◌, refl, ◌∙◌, ap, Bool, true, false, List, arith, get_or,
  ltb, ltb→lt, Bool-cases, inl, inr,
}
use noitu.Game.Engine.{advance_from}

-- The seat `d` places after `i` round a table of `n`.
abbrev pub seat_after : ℕ → ℕ → ℕ → ℕ
seat_after n i d = (i + d) % n

seat_after-suc : (n i d : ℕ) → seat_after n ((i + 1) % n) d ≡ seat_after n i (suc d)
seat_after-suc n i d = mod-add-mod (i + 1) n d ∙ ap (λ t. t % n) (omega arith)

-- `j` is the first seat in the game after `i`, and it stands at most `rounds` places on.
pub record Landing (rounds : ℕ) (alive : List Bool) (n i j : ℕ) : Type 0 where
  pub steps : ℕ
  pub ahead : 0 < steps
  pub within : steps ≤ rounds
  pub lands : j ≡ seat_after n i steps
  pub seated : get_or alive j false ≡ true
  pub skipped : (k : ℕ) → 0 < k → k < steps → get_or alive (seat_after n i k) false ≡ false

later :
    (rounds : ℕ) (alive : List Bool) (n i j : ℕ)
    → get_or alive (seat_after n i 1) false ≡ false
    → Landing rounds alive n (seat_after n i 1) j
    → Landing (suc rounds) alive n i j
later rounds alive n i j out l = record {
  steps = suc l.steps;
  ahead = omega arith;
  within = omega (arith, l.within);
  lands = l.lands ∙ seat_after-suc n i l.steps;
  seated = l.seated;
  skipped = skip;
}
  where
    skip : (k : ℕ) → 0 < k → k < suc l.steps → get_or alive (seat_after n i k) false ≡ false
    skip zero h lt = absurd (omega arith)
    skip (suc zero) h lt = out
    skip (suc (suc k)) h lt =
        rw (← seat_after-suc n i (suc k)) (l.skipped (suc k) (omega arith) (omega arith))

advance_from-lands :
    (rounds : ℕ) (alive : List Bool) (n i k : ℕ)
    → 0 < k
    → k ≤ rounds
    → get_or alive (seat_after n i k) false ≡ true
    → Landing rounds alive n i (advance_from rounds alive n i)
unfolding advance_from
advance_from-lands zero alive n i k h le s = absurd (omega arith)
advance_from-lands (suc rounds) alive n i zero h le s = absurd (omega arith)
advance_from-lands (suc rounds) alive n i (suc k) h le s =
    elim (Bool-cases (get_or alive (seat_after n i 1) false)) [
      | inl e ↦ rw e (record {
        steps = 1;
        ahead = omega arith;
        within = omega arith;
        lands = refl;
        seated = e;
        skipped = λ m p q. absurd (omega arith);
      })
      | inr e ↦ rw e (
          later rounds alive n i _ e (
            advance_from-lands rounds alive n (seat_after n i 1) k (onward k s e) (omega arith)
              (rw (seat_after-suc n i k) s)))
    ]
  where
    onward :
        (k : ℕ)
        → get_or alive (seat_after n i (suc k)) false ≡ true
        → get_or alive (seat_after n i 1) false ≡ false
        → 0 < k
    onward zero s e = absurd (cc)
    onward (suc k) s e = omega arith

places_to : (n i t : ℕ) → i < n → t < n → (k : ℕ) × (0 < k) × (k ≤ n) × (seat_after n i k ≡ t)
places_to n i t hi ht = elim (Bool-cases (ltb i t)) [
  | inl e ↦
      let le = ltb→lt i t e in
      let sum : i + (t - i) ≡ t = omega arith in
      (t - i, omega arith, omega arith, rw sum (mod-eq_of_lt ht))
  | inr e ↦
      let ge : t ≤ i = ground arith in
      let sum : i + (n + t - i) ≡ n + t = omega arith in
      (n + t - i, omega arith, omega arith, rw sum (add-mod_left n t ∙ mod-eq_of_lt ht))
]

-- The seat in the game nearest after `i`, in turn order, is the one that the rounds find.
pub advance_from-Landing :
    (alive : List Bool) (n i t : ℕ)
    → i < n
    → t < n
    → get_or alive t false ≡ true
    → Landing n alive n i (advance_from n alive n i)
advance_from-Landing alive n i t hi ht s =
    let (k, pos, le, reach) = places_to n i t hi ht in
    advance_from-lands n alive n i k pos le (rw reach s)
