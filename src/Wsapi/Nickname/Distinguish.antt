-- ===== src/Wsapi/Nickname/Distinguish.antt =====
-- `distinguish` ends, and its name is new to the room and not too long.
use noitu.Prelude.{
  ℕ, zero, suc, ◌+◌, ◌-◌, ◌≤◌, ◌<◌, ◌≡◌, ◌≢◌, refl, sym, ◌∙◌, ap, Bool, true, false, not, ◌||◌,
  List, [], ◌∷◌, ◌++◌, some, arith, Text, same, same_iff, contains, length, length-append,
  length-take, length-keep, ltb, ◌==◌, if◌then◌else◌, if_split, keep, take, All, Bool-cases, inl,
  inr,
}
use noitu.Vietnamese.{is_space}
use noitu.Wsapi.Nickname.{
  digits, suffix, trim_space, candidate, distinguish_from, distinguish, max_nickname_runes,
}
use noitu.Wsapi.Nickname.Decimal.{digits_injective, digits_space_free, suffix_short}
use noitu.Wsapi.Nickname.Filter.{length-trim_space}

-- Whether a plain space stands in a text, and what stands after the last one.
spaced : Text → Bool
spaced [] = false
spaced (c ∷ s) = c == 32 || spaced s

unfoldable after_space : Text → Text
unfolding spaced
after_space [] = []
after_space (c ∷ s) =
    let rest = after_space s in if spaced s then rest else if c == 32 then s else c ∷ s

spaced_free : (d : Text) → All (λ c. is_space c ≡ false) d → spaced d ≡ false
unfolding spaced is_space
spaced_free [] a = refl
spaced_free (c ∷ d) a = ground (arith, spaced_free d a.1)

spaced-append : (w d : Text) → spaced (w ++ 32 ∷ d) ≡ true
unfolding spaced
spaced-append [] d = refl
spaced-append (c ∷ w) d = ground (arith, spaced-append w d)

after_space-append : (w d : Text) → All (λ c. is_space c ≡ false) d → after_space (w ++ 32 ∷ d) ≡ d
unfolding after_space
after_space-append [] d a = rw (spaced_free d a) refl
after_space-append (c ∷ w) d a = rw (spaced-append w d) (after_space-append w d a)

after_space-candidate : (name : Text) (n : ℕ) → after_space (candidate name n) ≡ digits (suc n) n
unfolding candidate suffix
after_space-candidate name n = after_space-append _ (digits (suc n) n) (digits_space_free (suc n) n)

-- Two numbers make two names.
candidate_injective : (name : Text) (n k : ℕ) → candidate name n ≡ candidate name k → n ≡ k
candidate_injective name n k e =
    digits_injective n k
      (sym (after_space-candidate name n) ∙ ap after_space e ∙ after_space-candidate name k)

length-keep_lt :
    (w : Text) (ws : List Text)
    → contains ws w ≡ true
    → length (keep (λ v. not (same v w)) ws) < length ws
unfolding contains
length-keep_lt w [] h = absurd (ground arith)
length-keep_lt w (v ∷ ws) h =
    ground (arith, h, length-keep_lt w ws, length-keep (λ x. not (same x w)) ws)

contains-keep_other :
    (w v : Text) (ws : List Text)
    → v ≢ w
    → contains ws v ≡ true
    → contains (keep (λ x. not (same x w)) ws) v ≡ true
unfolding contains
contains-keep_other w v [] h c = c
contains-keep_other w v (x ∷ ws) h c =
    ground (arith, contains-keep_other w v ws h, same_iff x w, same_iff x v)

-- The names that the loop can still meet are among the `blocking` ones: so many tries are enough.
distinguish_from_ends :
    (name : Text) (taken blocking : List Text) (fuel n : ℕ)
    → ((k : ℕ)
        → n ≤ k
        → contains taken (candidate name k) ≡ true
        → contains blocking (candidate name k) ≡ true)
    → length blocking < fuel
    → (k : ℕ) × (n ≤ k)
      × (k < n + fuel)
      × (distinguish_from name taken fuel n ≡ some (candidate name k))
      × (contains taken (candidate name k) ≡ false)
unfolding distinguish_from
distinguish_from_ends name taken blocking zero n among few = absurd (omega arith)
distinguish_from_ends name taken blocking (suc fuel) n among few =
    elim (Bool-cases (contains taken (candidate name n))) [
      | inl h ↦
          let c = candidate name n in
          let left = keep (λ v. not (same v c)) blocking in
          let still : (k : ℕ)
              → suc n ≤ k
              → contains taken (candidate name k) ≡ true
              → contains left (candidate name k) ≡ true =
            λ k le met.
              contains-keep_other c (candidate name k) blocking
                (λ e. absurd (omega (arith, candidate_injective name k n e, le)))
                (among k (omega arith) met) in
          let (k, le, lt, is, free) =
            distinguish_from_ends name taken left fuel (suc n) still
              (omega (arith, length-keep_lt c blocking (among n (omega arith) h))) in
          (k, omega arith, omega arith, rw h is, free)
      | inr h ↦ (n, omega arith, omega arith, rw h refl, h)
    ]

length-candidate : (name : Text) (n : ℕ) → n < 100 → length (candidate name n) ≤ max_nickname_runes
unfolding candidate
length-candidate name n h =
    let end = suffix n in
    let cut = trim_space (take (max_nickname_runes - length end) name) in
    if_split (λ trimmed. length (trimmed ++ end) ≤ max_nickname_runes)
      (ltb max_nickname_runes (length name + length end))
      (λ long. omega (
        arith,
        length-append cut end,
        suffix_short n h,
        length-trim_space (take (max_nickname_runes - length end) name),
        length-take (max_nickname_runes - length end) name,
      ))
      (λ short. ground (arith, length-append name end))

-- For a name of at most 20 runes and fewer than 97 taken names, the loop of distinguish ends and
-- answers a name of at most 20 runes that is not taken.
pub distinguish_new :
    (name : Text) (taken : List Text)
    → length name ≤ max_nickname_runes
    → length taken < 97
    → (w : Text) × (distinguish name taken ≡ some w)
      × (contains taken w ≡ false)
      × (length w ≤ max_nickname_runes)
unfolding distinguish
distinguish_new name taken short few = elim (Bool-cases (contains taken name)) [
  | inl h ↦
      let (k, le, lt, is, free) =
        distinguish_from_ends name taken taken (suc (length taken)) 2 (λ k le met. met)
          (omega arith) in
      (candidate name k, rw h is, free, length-candidate name k (omega arith))
  | inr h ↦ (name, rw h refl, h, short)
]
