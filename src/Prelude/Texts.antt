-- ===== src/Prelude/Texts.antt =====
-- Go strings, as the code points that `range` yields, and sets of them as lists.
-- A valid UTF-8 text is ordered by its code points as it is by its bytes.
use Prim.Native.Nat.{ℕ}
use Prim.Native.Char.{code}
use Prim.Native.String.{String}
use mathlib.Core.Path.{◌≡◌, refl}
use mathlib.Core.Logic.{◌↔◌, inl, inr}
use mathlib.Core.Bool.{Bool, true, false, ◌&&◌, ◌||◌}
use mathlib.Core.List.{List, [], ◌∷◌, ◌++◌}
use native.Mathlib.Omega.{arith}
use noitu.Prelude.Tests.{◌==◌, ltb, if◌then◌else◌, Bool-cases}
use noitu.Prelude.Lists.{All}

abbrev pub Text : Type 0
Text = List ℕ

-- A literal of the source.
abbrev pub codes : String → Text
codes String.[] = []
codes (String.◌∷◌ c s) = code c ∷ codes s

unfoldable pub same : Text → Text → Bool
same [] [] = true
same [] (y ∷ ys) = false
same (x ∷ xs) [] = false
same (x ∷ xs) (y ∷ ys) = x == y && same xs ys

same_of_eq : (a : Text) → same a a ≡ true
unfolding same
same_of_eq [] = refl
same_of_eq (x ∷ xs) = ground (arith, same_of_eq xs)

eq_of_same : (a b : Text) → same a b ≡ true → a ≡ b
unfolding same
eq_of_same [] [] h = refl
eq_of_same [] (y ∷ ys) h = ground arith
eq_of_same (x ∷ xs) [] h = ground arith
eq_of_same (x ∷ xs) (y ∷ ys) h = ground (arith, eq_of_same xs ys)

pub same_iff : (a b : Text) → (same a b ≡ true) ↔ (a ≡ b)
same_iff a b = (eq_of_same a b, λ e. rw e (same_of_eq b))

pub same_refl : (a : Text) → same a a ≡ true
same_refl a = same_of_eq a

-- Membership of a set of texts.
unfoldable pub contains : List Text → Text → Bool
contains [] w = false
contains (x ∷ xs) w = same x w || contains xs w

pub contains-append :
    (xs ys : List Text) (w : Text) → contains (xs ++ ys) w ≡ (contains xs w || contains ys w)
unfolding contains
contains-append [] ys w = refl
contains-append (x ∷ xs) ys w = ground (arith, contains-append xs ys w)

-- No text stands twice.
abbrev pub Distinct : List Text → Type 0
Distinct [] = Unit
Distinct (x ∷ xs) = (contains xs x ≡ false) × Distinct xs

pub Distinct-snoc :
    (xs : List Text) (w : Text) → Distinct xs → contains xs w ≡ false → Distinct (xs ++ w ∷ [])
unfolding contains
Distinct-snoc [] w d h = (refl, tt)
Distinct-snoc (x ∷ xs) w d h = (
  ground (arith, contains-append xs (w ∷ []) x, same_iff x w, same_iff w x),
  Distinct-snoc xs w d.1 (ground arith),
)

pub All-contains {κ} :
    (P : Text → Type κ) (xs : List Text) (w : Text) → All P xs → contains xs w ≡ true → P w
unfolding contains
All-contains P [] w h c = absurd (ground arith)
All-contains P (x ∷ xs) w h c = elim (Bool-cases (same x w)) [
  | inl e ↦ rw (← (same_iff x w).0 e) h.0
  | inr e ↦ All-contains P xs w h.1 (ground arith)
]

-- The order of Go strings: `a <= b`.
unfoldable pub text_leb : Text → Text → Bool
text_leb [] b = true
text_leb (x ∷ xs) [] = false
text_leb (x ∷ xs) (y ∷ ys) = let rest = text_leb xs ys in if x == y then rest else ltb x y

pub text_leb_total : (a b : Text) → text_leb a b ≡ false → text_leb b a ≡ true
unfolding text_leb
text_leb_total [] b h = ground arith
text_leb_total (x ∷ xs) [] h = refl
text_leb_total (x ∷ xs) (y ∷ ys) h = ground (arith, text_leb_total xs ys)

pub text_leb_trans :
    (a b c : Text) → text_leb a b ≡ true → text_leb b c ≡ true → text_leb a c ≡ true
unfolding text_leb
text_leb_trans [] b c h k = refl
text_leb_trans (x ∷ xs) [] c h k = ground arith
text_leb_trans (x ∷ xs) (y ∷ ys) [] h k = ground arith
text_leb_trans (x ∷ xs) (y ∷ ys) (z ∷ zs) h k = ground (arith, text_leb_trans xs ys zs)
