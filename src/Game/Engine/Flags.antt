-- ===== src/Game/Engine/Flags.antt =====
-- The flags of the seats, and the seat at which a player sits.
use noitu.Prelude.{
  ℕ, zero, suc, ◌+◌, ◌≤◌, ◌<◌, ◌≡◌, refl, Bool, true, false, List, [], ◌∷◌, none, some, arith, ap,
  get_or, set, length, replicate, Text, same, same_iff, same_refl, contains, Distinct,
  if◌then◌else◌, ◌==◌, Bool-cases, inl, inr,
}
use noitu.Game.Engine.{index_from}

-- How many seats are in the game.
unfoldable pub count_true : List Bool → ℕ
count_true [] = 0
count_true (b ∷ bs) = (if b then 1 else 0) + count_true bs

pub count_true-set :
    (bs : List Bool) (i : ℕ)
    → get_or bs i false ≡ true
    → suc (count_true (set bs i false)) ≡ count_true bs
unfolding count_true
count_true-set [] i h = absurd (cc)
count_true-set (b ∷ bs) zero h = ground arith
count_true-set (b ∷ bs) (suc i) h = omega (arith, count_true-set bs i h)

pub get_or-set :
    (bs : List Bool) (i j : ℕ) (v : Bool)
    → i < length bs
    → get_or (set bs i v) j false ≡ (if i == j then v else get_or bs j false)
get_or-set [] i j v h = absurd (omega arith)
get_or-set (b ∷ bs) zero zero v h = refl
get_or-set (b ∷ bs) zero (suc j) v h = ground arith
get_or-set (b ∷ bs) (suc i) zero v h = ground arith
get_or-set (b ∷ bs) (suc i) (suc j) v h = ground (arith, get_or-set bs i j v)

pub lt_of_get_or : (bs : List Bool) (i : ℕ) → get_or bs i false ≡ true → i < length bs
lt_of_get_or [] i h = absurd (cc)
lt_of_get_or (b ∷ bs) zero h = omega arith
lt_of_get_or (b ∷ bs) (suc i) h = omega (arith, lt_of_get_or bs i h)

-- With someone in the game there is a seat to point at.
pub seat_of_count : (bs : List Bool) → 0 < count_true bs → (i : ℕ) × (get_or bs i false ≡ true)
unfolding count_true
seat_of_count [] h = absurd (omega arith)
seat_of_count (true ∷ bs) h = (0, refl)
seat_of_count (false ∷ bs) h = let (i, e) = seat_of_count bs (omega arith) in (suc i, e)

pub count_true-replicate : (n : ℕ) → count_true (replicate n true) ≡ n
unfolding count_true
count_true-replicate zero = refl
count_true-replicate (suc n) = omega (arith, count_true-replicate n)

pub get_or-replicate : (n i : ℕ) → i < n → get_or (replicate n true) i false ≡ true
get_or-replicate zero i h = absurd (omega arith)
get_or-replicate (suc n) zero h = refl
get_or-replicate (suc n) (suc i) h = get_or-replicate n i (omega arith)

pub contains-get_or : (ps : List Text) (i : ℕ) → i < length ps → contains ps (get_or ps i []) ≡ true
unfolding contains
contains-get_or [] i h = absurd (omega arith)
contains-get_or (p ∷ ps) zero h = ground (arith, same_refl p)
contains-get_or (p ∷ ps) (suc i) h = ground (arith, contains-get_or ps i)

-- A seat is found by its own name, where no name stands twice.
pub index_from-get_or :
    (ps : List Text) (i k : ℕ)
    → Distinct ps
    → i < length ps
    → index_from ps (get_or ps i []) k ≡ some (k + i)
unfolding index_from
index_from-get_or [] i k d h = absurd (omega arith)
index_from-get_or (p ∷ ps) zero k d h = ground (arith, same_refl p)
index_from-get_or (p ∷ ps) (suc i) k d h =
    ground
      (arith, same_iff p (get_or ps i []), contains-get_or ps i, index_from-get_or ps i (suc k) d.1)

-- What is found is a seat of that name.
pub index_from_sound :
    (ps : List Text) (p : Text) (k i : ℕ)
    → index_from ps p k ≡ some i
    → (j : ℕ) × (i ≡ k + j) × (j < length ps) × (get_or ps j [] ≡ p)
unfolding index_from
index_from_sound [] p k i h = absurd (cc)
index_from_sound (q ∷ ps) p k i h = elim (Bool-cases (same q p)) [
  | inl e ↦ (0, ground arith, omega arith, (same_iff q p).0 e)
  | inr e ↦
      let (j, at, lt, found) = index_from_sound ps p (suc k) i (ground arith) in
      (suc j, omega arith, omega arith, found)
]

-- A name that stands at no seat is not found.
pub index_from-none :
    (ps : List Text) (p : Text) (k : ℕ) → contains ps p ≡ false → index_from ps p k ≡ none
unfolding index_from contains
index_from-none [] p k h = refl
index_from-none (q ∷ ps) p k h = ground (arith, index_from-none ps p (suc k))

no_seat : (bs : List Bool) (i : ℕ) → count_true bs ≤ 0 → get_or bs i false ≡ true → ⊥
unfolding count_true
no_seat [] i h a = cc
no_seat (b ∷ bs) zero h a = ground arith
no_seat (b ∷ bs) (suc i) h a = no_seat bs i (omega arith) a

-- With one seat left in the game, two that are in it are the same.
pub one_seat :
    (bs : List Bool) (i j : ℕ)
    → count_true bs ≤ 1
    → get_or bs i false ≡ true
    → get_or bs j false ≡ true
    → i ≡ j
unfolding count_true
one_seat [] i j h a b = absurd (cc)
one_seat (x ∷ bs) zero zero h a b = refl
one_seat (x ∷ bs) zero (suc j) h a b = absurd (no_seat bs j (ground arith) b)
one_seat (x ∷ bs) (suc i) zero h a b = absurd (no_seat bs i (ground arith) a)
one_seat (x ∷ bs) (suc i) (suc j) h a b = ap suc (one_seat bs i j (omega arith) a b)
