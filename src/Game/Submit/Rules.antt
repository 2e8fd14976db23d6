-- ===== src/Game/Submit/Rules.antt =====
-- `Submit` against the rules of the game, stated without its order of tests.
use noitu.Prelude.{
  ◌≤◌, ◌<◌, ◌≡◌, ◌≢◌, refl, true, false, not, List, none, some, arith, Text, same, same_iff,
  contains, length, if_split, Option-cases, ◌⊎◌, inl, inr,
}
use noitu.Vietnamese.{Unicode, normalize, has_enough_syllables}
use noitu.Game.State.{Dictionary, too_few_syllables, not_in_dictionary, wrong_link, already_used}
use noitu.Game.Engine.{Engine}
use noitu.Game.Submit.{Legal, Verdict, legal, reject, judge, judge_canonical}

module _ (dict : Dictionary) (u : Unicode) (e : Engine) (raw : Text) where
  -- The word names an unplayed entry of the dictionary that starts on the current syllable.
  pub record IsWord (w : Legal) : Type 0 where
    pub normalized : Text
    pub syllables : List Text
    pub normalizes : normalize u raw ≡ some (normalized, syllables)
    pub enough : 2 ≤ length syllables
    pub counted : w.count ≡ length syllables
    pub resolves : dict.resolve normalized ≡ some w.canonical
    pub starts : dict.first_syllable w.canonical ≡ some w.first
    pub links : w.first ≡ e.current
    pub fresh : contains e.used w.canonical ≡ false
    pub ends : dict.last_syllable w.canonical ≡ some w.last

  pub judge_complete : (w : Legal) → IsWord w → judge dict u e raw ≡ legal w
  unfolding judge judge_canonical has_enough_syllables
  judge_complete w r = rw (r.normalizes, judge) (ground (arith, same_iff w.first e.current))

  -- The word has no two syllables.
  abbrev pub IsShort : Type 0
  IsShort =
      (normalize u raw ≡ none)
      ⊎ ((normalized : Text) × (syllables : List Text) × (normalize u raw
            ≡ some (normalized, syllables))
          × (length syllables < 2))

  -- The word resolves to this entry of the dictionary.
  abbrev pub Resolves : Text → Type 0
  Resolves canonical =
      (normalized : Text) × (syllables : List Text) × (normalize u raw
        ≡ some (normalized, syllables))
      × (2 ≤ length syllables)
      × (dict.resolve normalized ≡ some canonical)

  -- The dictionary does not have the word, or an end of it.
  abbrev pub IsUnknown : Type 0
  IsUnknown =
      ((normalized : Text) × (syllables : List Text) × (normalize u raw
          ≡ some (normalized, syllables))
        × (2 ≤ length syllables)
        × (dict.resolve normalized ≡ none))
      ⊎ ((canonical : Text) × Resolves canonical × (dict.first_syllable canonical ≡ none))
      ⊎ ((canonical : Text) × Resolves canonical × (dict.last_syllable canonical ≡ none))

  -- What each verdict on a word says of it.
  abbrev pub Means : Verdict → Type 0
  Means (legal w) = IsWord w
  Means (reject too_few_syllables) = IsShort
  Means (reject not_in_dictionary) = IsUnknown
  Means (reject wrong_link) =
      (canonical first : Text) × Resolves canonical
      × (dict.first_syllable canonical ≡ some first)
      × (first ≢ e.current)
  Means (reject already_used) =
      (canonical : Text) × Resolves canonical
      × (dict.first_syllable canonical ≡ some e.current)
      × (contains e.used canonical ≡ true)
  Means (reject _) = ⊥

  judge_canonical-Means :
      (normalized canonical : Text) (syllables : List Text)
      → normalize u raw ≡ some (normalized, syllables)
      → 2 ≤ length syllables
      → dict.resolve normalized ≡ some canonical
      → Means (judge_canonical dict e canonical (length syllables))
  unfolding judge_canonical
  judge_canonical-Means normalized canonical syllables n two r =
      let known : Resolves canonical = (normalized, syllables, n, two, r) in
      elim (Option-cases (dict.first_syllable canonical)) [
        | inl f ↦ rw (f, judge_canonical) (inr (inl (canonical, known, f)))
        | inr (first, f) ↦
            rw (f, judge_canonical)
              (if_split Means (not (same first e.current))
                (λ off.
                  (canonical, first, known, f, λ at. ground (arith, same_iff first e.current)))
                λ on.
                  let at = (same_iff first e.current).0 (ground arith) in
                  if_split Means (contains e.used canonical)
                    (λ old. (canonical, known, rw at at f, old))
                    λ new. elim (Option-cases (dict.last_syllable canonical)) [
                      | inl l ↦ rw l (inr (inr (canonical, known, l)))
                      | inr (last, l) ↦ rw l (record {
                        normalized = normalized;
                        syllables = syllables;
                        normalizes = n;
                        enough = two;
                        counted = refl;
                        resolves = r;
                        starts = f;
                        links = at;
                        fresh = new;
                        ends = l;
                      })
                    ])
      ]

  pub judge-Means : Means (judge dict u e raw)
  unfolding judge has_enough_syllables
  judge-Means = elim (Option-cases (normalize u raw)) [
    | inl n ↦ rw (n, judge) (inl n)
    | inr ((normalized, syllables), n) ↦
        rw (n, judge)
          (if_split Means (not (has_enough_syllables syllables))
            (λ few. inr (normalized, syllables, n, ground arith))
            λ enough.
              let two : 2 ≤ length syllables = ground arith in
              elim (Option-cases (dict.resolve normalized)) [
                | inl r ↦ rw r (inl (normalized, syllables, n, two, r))
                | inr (canonical, r) ↦
                    rw r (judge_canonical-Means normalized canonical syllables n two r)
              ])
  ]
