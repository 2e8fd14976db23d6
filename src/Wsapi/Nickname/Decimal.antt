-- ===== src/Wsapi/Nickname/Decimal.antt =====
-- Decimal numerals: no two numbers share one, and how long they are.
use noitu.Prelude.{
  ℕ, zero, suc, ◌+◌, ◌*◌, ◌-◌, ◌/◌, ◌%◌, ◌≤◌, ◌<◌, ◌≡◌, sym, ◌∙◌, ap, false, [], ◌∷◌, ◌++◌, arith,
  Text, length, length-append, ltb, if_split, All, All-append,
}
use noitu.Vietnamese.{is_space}
use noitu.Wsapi.Nickname.{digits, suffix}

-- The number that a numeral stands for.
unfoldable pub value_from : ℕ → Text → ℕ
value_from n [] = n
value_from n (c ∷ s) = value_from (10 * n + (c - 48)) s

value-snoc :
    (n : ℕ) (s : Text) (d : ℕ) → value_from n (s ++ (48 + d) ∷ []) ≡ 10 * value_from n s + d
unfolding value_from
value-snoc n [] d = omega arith
value-snoc n (c ∷ s) d = value-snoc (10 * n + (c - 48)) s d

value-digits : (fuel n : ℕ) → n < fuel → value_from 0 (digits fuel n) ≡ n
unfolding digits value_from
value-digits zero n h = absurd (omega arith)
value-digits (suc fuel) n h =
    if_split (λ s. value_from 0 s ≡ n) (ltb n 10) (λ one. omega arith)
      λ more.
        let big : 10 ≤ n = ground arith in
        let front = value-digits fuel (n / 10) (omega arith) in
        omega (arith, value-snoc 0 (digits fuel (n / 10)) (n % 10), front)

pub digits_injective : (n k : ℕ) → digits (suc n) n ≡ digits (suc k) k → n ≡ k
digits_injective n k e =
    sym (value-digits (suc n) n (omega arith))
    ∙ ap (value_from 0) e
    ∙ value-digits (suc k) k (omega arith)

digit_no_space : (d : ℕ) → d < 10 → is_space (48 + d) ≡ false
unfolding is_space
digit_no_space d h = ground arith

pub digits_space_free : (fuel n : ℕ) → All (λ c. is_space c ≡ false) (digits fuel n)
unfolding digits
digits_space_free zero n = tt
digits_space_free (suc fuel) n =
    if_split (All (λ c. is_space c ≡ false)) (ltb n 10)
      (λ one. (digit_no_space n (ground arith), tt))
      λ more.
        All-append _ (digits fuel (n / 10)) ((48 + n % 10) ∷ []) (digits_space_free fuel (n / 10))
          (digit_no_space (n % 10) (omega arith), tt)

digits_one : (fuel n : ℕ) → n < 10 → length (digits fuel n) ≤ 1
unfolding digits
digits_one zero n h = omega arith
digits_one (suc fuel) n h = ground arith

digits_two : (fuel n : ℕ) → n < 100 → length (digits fuel n) ≤ 2
unfolding digits
digits_two zero n h = omega arith
digits_two (suc fuel) n h =
    ground
      (arith, digits_one fuel (n / 10), length-append (digits fuel (n / 10)) ((48 + n % 10) ∷ []))

-- A number below a hundred takes three runes with its space.
pub suffix_short : (n : ℕ) → n < 100 → length (suffix n) ≤ 3
unfolding suffix
suffix_short n h = omega (arith, digits_two (suc n) n h)
