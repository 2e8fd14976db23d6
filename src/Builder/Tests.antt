-- ===== src/Builder/Tests.antt =====
-- A syllable, over plain letters.
use noitu.Prelude.{◌≡◌, true, [], ◌∷◌, codes}
use noitu.Builder.Syllable.{
  is_vietnamese_syllable, drop_marks, vietnamese_onsets, IsSyllable, is_vietnamese_syllable_iff,
}

is_vietnamese_syllable_iff_example :
    (is_vietnamese_syllable (λ s. s) (codes "gi") ≡ true
      → IsSyllable ([] ∷ vietnamese_onsets) (drop_marks (codes "gi")))
    × (IsSyllable ([] ∷ vietnamese_onsets) (drop_marks (codes "gi"))
        → is_vietnamese_syllable (λ s. s) (codes "gi") ≡ true)
is_vietnamese_syllable_iff_example = is_vietnamese_syllable_iff (λ s. s) (codes "gi")
