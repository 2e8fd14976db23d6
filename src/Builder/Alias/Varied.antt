-- ===== src/Builder/Alias/Varied.antt =====
-- The variants of a word: how many, which they are, and that none comes twice.
use mathlib.Core.Path.{subst}
use noitu.Prelude.{
  suc, ◌≤◌, ◌≡◌, refl, sym, Bool, true, false, ◌&&◌, List, [], ◌∷◌, ◌++◌, Text, same_iff, same_refl,
  append_nil, append_assoc, map, contains, Distinct, All, All-append, All-map, length,
  length-append, leb, if_split, arith,
}
use noitu.Vietnamese.{join}
use noitu.Builder.Alias.{
  Forms, spellings_of, split_spaces, vary_prefix, vary_all, combine, unseen, variants_for,
  max_variants_per_word,
}

-- Texts, one out of each list.
abbrev pub one_of_each : List Text → List (List Text) → Bool
one_of_each [] [] = true
one_of_each [] (options ∷ rest) = false
one_of_each (s ∷ ss) [] = false
one_of_each (s ∷ ss) (options ∷ rest) = contains options s && one_of_each ss rest

one_of_each-snoc :
    (combo : List Text) (lists : List (List Text)) (options : List Text) (s : Text)
    → one_of_each combo lists ≡ true
    → contains options s ≡ true
    → one_of_each (combo ++ s ∷ []) (lists ++ options ∷ []) ≡ true
one_of_each-snoc [] [] options s h c = ground arith
one_of_each-snoc [] (o ∷ lists) options s h c = absurd (ground arith)
one_of_each-snoc (x ∷ combo) [] options s h c = absurd (ground arith)
one_of_each-snoc (x ∷ combo) (o ∷ lists) options s h c =
    ground (arith, one_of_each-snoc combo lists options s)

module _ (P : List Text → Type 0) where
  All-vary_prefix :
      (next : List (List Text)) (prefix spellings : List Text)
      → All P next
      → ((s : Text) → contains spellings s ≡ true → P (prefix ++ s ∷ []))
      → All P (vary_prefix next prefix spellings)
  unfolding vary_prefix contains
  All-vary_prefix next prefix [] h each = h
  All-vary_prefix next prefix (s ∷ spellings) h each =
      if_split (All P) (leb max_variants_per_word (length next)) (λ full. h)
        λ room.
          All-vary_prefix (next ++ (prefix ++ s ∷ []) ∷ []) prefix spellings
            (All-append P next _ h (each s (ground (arith, same_refl s)), tt))
            (λ t at. each t (ground arith))

  All-vary_all :
      (next combos : List (List Text)) (spellings : List Text)
      → All P next
      → All (λ prefix. (s : Text) → contains spellings s ≡ true → P (prefix ++ s ∷ [])) combos
      → All P (vary_all next combos spellings)
  unfolding vary_all
  All-vary_all next [] spellings h each = h
  All-vary_all next (prefix ∷ combos) spellings h each =
      All-vary_all (vary_prefix next prefix spellings) combos spellings
        (All-vary_prefix next prefix spellings h each.0) each.1

length-vary_prefix :
    (next : List (List Text)) (prefix spellings : List Text)
    → length next ≤ max_variants_per_word
    → length (vary_prefix next prefix spellings) ≤ max_variants_per_word
unfolding vary_prefix
length-vary_prefix next prefix [] le = le
length-vary_prefix next prefix (s ∷ spellings) le =
    if_split (λ (r : List (List Text)). length r ≤ max_variants_per_word)
      (leb max_variants_per_word (length next)) (λ full. le)
      λ room.
        length-vary_prefix _ prefix spellings
          (ground (arith, length-append next ((prefix ++ s ∷ []) ∷ [])))

length-vary_all :
    (next combos : List (List Text)) (spellings : List Text)
    → length next ≤ max_variants_per_word
    → length (vary_all next combos spellings) ≤ max_variants_per_word
unfolding vary_all
length-vary_all next [] spellings le = le
length-vary_all next (prefix ∷ combos) spellings le =
    length-vary_all (vary_prefix next prefix spellings) combos spellings
      (length-vary_prefix next prefix spellings le)

-- Combinations within the cap, each of a spelling for each syllable.
abbrev Combined : List (List Text) → List (List Text) → Type 0
Combined lists combos =
    (length combos ≤ max_variants_per_word) × All (λ combo. one_of_each combo lists ≡ true) combos

combine-Combined :
    (f : Forms) (lists combos : List (List Text)) (syllables : List Text)
    → Combined lists combos
    → Combined (lists ++ map (spellings_of f) syllables) (combine f combos syllables)
unfolding combine
combine-Combined f lists combos [] c = subst (λ r. Combined r combos) (sym (append_nil lists)) c
combine-Combined f lists combos (syllable ∷ rest) c =
    let options = spellings_of f syllable in
    subst (λ r. Combined r (combine f (vary_all [] combos options) rest))
      (append_assoc lists (options ∷ []) (map (spellings_of f) rest))
      (combine-Combined f (lists ++ options ∷ []) (vary_all [] combos options) rest (
        length-vary_all [] combos options (omega arith),
        All-vary_all (λ combo. one_of_each combo (lists ++ options ∷ []) ≡ true) [] combos options
            tt (All-map combos (λ combo h s at. one_of_each-snoc combo lists options s h at) c.1),
      ))

unseen_seen :
    (seen : List Text) (combos : List (List Text)) (w : Text)
    → contains seen w ≡ true
    → contains (unseen seen combos) w ≡ false
unfolding unseen contains
unseen_seen seen [] w h = refl
unseen_seen seen (combo ∷ combos) w h =
    if_split (λ (r : List Text). contains r w ≡ false) (contains seen (join combo))
      (λ y. unseen_seen seen combos w h)
      λ n. ground (arith, same_iff (join combo) w, unseen_seen (join combo ∷ seen) combos w)

Distinct-unseen : (seen : List Text) (combos : List (List Text)) → Distinct (unseen seen combos)
unfolding unseen contains
Distinct-unseen seen [] = tt
Distinct-unseen seen (combo ∷ combos) =
    if_split Distinct (contains seen (join combo)) (λ y. Distinct-unseen seen combos)
      λ n. (
        unseen_seen (join combo ∷ seen) combos (join combo)
            (ground (arith, same_refl (join combo))),
        Distinct-unseen (join combo ∷ seen) combos,
      )

length-unseen :
    (seen : List Text) (combos : List (List Text)) → length (unseen seen combos) ≤ length combos
unfolding unseen
length-unseen seen [] = omega arith
length-unseen seen (combo ∷ combos) =
    if_split (λ (r : List Text). length r ≤ suc (length combos)) (contains seen (join combo))
      (λ y. omega (arith, length-unseen seen combos))
      (λ n. omega (arith, length-unseen (join combo ∷ seen) combos))

All-unseen :
    (P : List Text → Type 0) (seen : List Text) (combos : List (List Text))
    → All P combos
    → All (λ v. (combo : List Text) × (join combo ≡ v) × P combo) (unseen seen combos)
unfolding unseen
All-unseen P seen [] h = tt
All-unseen P seen (combo ∷ combos) h =
    if_split (All (λ v. (c : List Text) × (join c ≡ v) × P c)) (contains seen (join combo))
      (λ y. All-unseen P seen combos h.1)
      λ n. ((combo, refl, h.0), All-unseen P (join combo ∷ seen) combos h.1)

-- What the variants of a word are.
pub record IsVaried (f : Forms) (word : Text) (variants : List Text) : Type 0 where
  pub bounded : length variants ≤ max_variants_per_word
  pub others : contains variants word ≡ false
  pub differ : Distinct variants
  pub spelled :
      All
        (λ v.
          (combo : List Text) × (join combo ≡ v)
          × (one_of_each combo (map (spellings_of f) (split_spaces word)) ≡ true))
        variants

-- The variants are within the cap and differ, and each is a choice of spellings.
pub variants_for-IsVaried : (f : Forms) (word : Text) → IsVaried f word (variants_for f word)
unfolding variants_for contains
variants_for-IsVaried f word =
    let combos = combine f ([] ∷ []) (split_spaces word) in
    let (few, each) =
      combine-Combined f [] ([] ∷ []) (split_spaces word) (omega arith, (refl, tt)) in
    record {
      bounded = omega (arith, length-unseen (word ∷ []) combos, few);
      others = unseen_seen (word ∷ []) combos word (ground (arith, same_refl word));
      differ = Distinct-unseen (word ∷ []) combos;
      spelled = All-unseen _ (word ∷ []) combos each;
    }
