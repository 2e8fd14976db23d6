-- ===== src/Builder/Alias/Tests.antt =====
-- Spellings over the tones of a few letters.
use noitu.Prelude.{
  ◌≡◌, refl, arith, List, [], ◌∷◌, ◌++◌, none, some, Text, map, length, contains, same, lookup,
}
use noitu.Vietnamese.{join}
use noitu.Builder.Alias.{
  Forms, Cluster, has_rune, first_mark, tone, is_found, has_letter_mark, drop_rune, without,
  with_mark, is_combining, mark_last, add_rune, clusters_from, decompose, flatten, recompose,
  recomposed, is_shiftable_pair, is_passed_over, shift_pair, after_cluster, put_pair, shift_from,
  tone_shift_variant, split_last, swap_iy, onset_of, swap_nucleus, iy_clusters, iy_variant,
  add_spelling, spellings_of, split_spaces, vary_prefix, vary_all, combine, unseen, variants_for,
}
use noitu.Builder.Alias.Shift.{IsShifted, shift_from-IsShifted}
use noitu.Builder.Alias.Cross.{choices}

-- Texts that are decomposed already.
abbrev plain : Forms
plain = record { nfd = λ s. s; nfc = λ s. s }

-- h, o, a with a grave accent.
abbrev hoa : Text
hoa = 104 ∷ 111 ∷ 97 ∷ 0x300 ∷ []

-- l, i with an acute accent.
abbrev li : Text
li = 108 ∷ 105 ∷ 0x301 ∷ []

abbrev new_style : List Cluster
new_style =
    record { base = 104; mods = [] }
    ∷ record { base = 111; mods = [] }
    ∷ record { base = 97; mods = 0x300 ∷ [] }
    ∷ []

abbrev old_style : List Cluster
old_style =
    record { base = 104; mods = [] }
    ∷ record { base = 111; mods = 0x300 ∷ [] }
    ∷ record { base = 97; mods = [] }
    ∷ []

shifted_hoa : shift_from none new_style ≡ some old_style
unfolding shift_from is_passed_over has_letter_mark is_found first_mark has_rune is_shiftable_pair
    shift_pair tone without with_mark drop_rune after_cluster put_pair
shifted_hoa = refl

three_variants : length (variants_for plain (hoa ++ 32 ∷ li)) ≡ 3
unfolding variants_for split_spaces combine vary_all vary_prefix spellings_of add_spelling contains
    same tone_shift_variant recomposed recompose flatten decompose clusters_from add_rune mark_last
    is_combining shift_from is_passed_over has_letter_mark is_found first_mark has_rune
    is_shiftable_pair shift_pair tone without with_mark drop_rune after_cluster put_pair iy_variant
    lookup iy_clusters split_last swap_iy onset_of swap_nucleus unseen join
three_variants = refl

shift_from-IsShifted_example : IsShifted none new_style old_style
shift_from-IsShifted_example =
    shift_from-IsShifted new_style none old_style (omega arith) shifted_hoa

four_choices : choices 1 (map (spellings_of plain) (split_spaces (hoa ++ 32 ∷ li))) ≡ 4
unfolding split_spaces spellings_of add_spelling contains same tone_shift_variant recomposed
    recompose flatten decompose clusters_from add_rune mark_last is_combining shift_from
    is_passed_over has_letter_mark is_found first_mark has_rune is_shiftable_pair shift_pair tone
    without with_mark drop_rune after_cluster put_pair iy_variant lookup iy_clusters split_last
    swap_iy onset_of swap_nucleus
four_choices = refl
