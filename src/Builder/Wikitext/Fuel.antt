-- ===== src/Builder/Wikitext/Fuel.antt =====
-- The loops over links and templates have fuel enough: more of it changes nothing.
use noitu.Prelude.{
  ℕ, zero, suc, ◌+◌, ◌≤◌, ◌<◌, ◌≡◌, refl, ap, ◌∙◌, Bool, List, [], ◌∷◌, ◌++◌, Option, none, some,
  Text, codes, length, length-append, All, All-map, ◌==◌, if◌then◌else◌, opt_split, arith,
  Bool-cases, Option-cases, inl, inr,
}
use noitu.Builder.Syllable.{after_prefix}
use noitu.Wsapi.Nickname.{trim_space}
use noitu.Wsapi.Nickname.Filter.{length-trim_space}
use noitu.Builder.Wikitext.{cut_at, push_before, join_with, count_up}
use noitu.Builder.Wikitext.Links.{next_link, strip_loop}
use noitu.Builder.Wikitext.Templates.{
  Piece, rune_piece, template_piece, push_piece, Counts, curly, scan_pieces, split_template,
  is_hint, read_params, render_params, render_parts, render_template, write_pieces, strip_once,
  strip_fuel, strip_templates,
}
use noitu.Builder.Wikitext.Pieces.{brace_split, bar, join-split_template}

length-after_prefix : (p s r : Text) → after_prefix p s ≡ some r → length p + length r ≡ length s
unfolding after_prefix
length-after_prefix [] s r is = ground arith
length-after_prefix (c ∷ cs) [] r is = absurd (ground arith)
length-after_prefix (c ∷ cs) (x ∷ xs) r is = elim (Bool-cases (c == x)) [
  | inl y ↦ ground (arith, length-after_prefix cs xs r)
  | inr n ↦ absurd (ground arith)
]

length-cut_at : (sub s b a : Text) → cut_at sub s ≡ some (b, a) → length sub + length a ≤ length s
unfolding cut_at push_before
length-cut_at sub [] b a is = absurd (ground arith)
length-cut_at sub (c ∷ s) b a is = elim (Option-cases (after_prefix sub (c ∷ s))) [
  | inr (r, found) ↦ ground (arith, length-after_prefix sub (c ∷ s) r found)
  | inl n ↦ elim (Option-cases (cut_at sub s)) [
    | inl none_later ↦ absurd (ground arith)
    | inr ((before, after), found) ↦ ground (arith, length-cut_at sub s before after found)
  ]
]

-- The parts of a body are no longer than the body.
parts_short :
    (k : ℕ) (parts : List Text) → length (join_with bar parts) ≤ k → All (λ p. length p ≤ k) parts
unfolding join_with
parts_short k [] le = tt
parts_short k (p ∷ []) le = (le, tt)
parts_short k (p ∷ (q ∷ rest)) le =
    let sum = length-append p (bar ++ join_with bar (q ∷ rest)) in
    (omega (arith, sum), parts_short k (q ∷ rest) (omega (arith, sum)))

-- A piece whose template is shorter than a bound.
abbrev IsSmall : ℕ → Piece → Type 0
IsSmall k (rune_piece c) = Unit
IsSmall k (template_piece body) = length body < k

abbrev Within : ℕ → ℕ → Text → Text → Type 0
Within k zero body s = length s ≤ k
Within k (suc depth) body s = length body + length s < k

scan_pieces-IsSmall :
    (k depth : ℕ) (body s : Text)
    → Within k depth body s
    → All (IsSmall k) (scan_pieces depth body s).0
unfolding scan_pieces push_piece
scan_pieces-IsSmall k zero body [] le = tt
scan_pieces-IsSmall k (suc depth) body [] le = tt
scan_pieces-IsSmall k zero body (c ∷ []) le = (tt, tt)
scan_pieces-IsSmall k (suc depth) body (c ∷ []) le = tt
scan_pieces-IsSmall k zero body (c ∷ (d ∷ rest)) le =
    brace_split (λ (r : List Piece × Bool). All (IsSmall k) r.0) (curly c d)
      (λ o. scan_pieces-IsSmall k 1 [] rest (omega arith))
      (λ e. scan_pieces-IsSmall k zero [] rest (omega arith))
      (λ t. (tt, scan_pieces-IsSmall k zero [] (d ∷ rest) (omega arith)))
scan_pieces-IsSmall k (suc zero) body (c ∷ (d ∷ rest)) le =
    brace_split (λ (r : List Piece × Bool). All (IsSmall k) r.0) (curly c d)
      (λ o.
        scan_pieces-IsSmall k 2 (body ++ c ∷ (d ∷ [])) rest
          (omega (arith, length-append body (c ∷ (d ∷ [])))))
      (λ e. (omega arith, scan_pieces-IsSmall k zero [] rest (omega arith)))
      (λ t.
        scan_pieces-IsSmall k 1 (body ++ c ∷ []) (d ∷ rest)
          (omega (arith, length-append body (c ∷ []))))
scan_pieces-IsSmall k (suc (suc depth)) body (c ∷ (d ∷ rest)) le =
    brace_split (λ (r : List Piece × Bool). All (IsSmall k) r.0) (curly c d)
      (λ o.
        scan_pieces-IsSmall k (suc (suc (suc depth))) (body ++ c ∷ (d ∷ [])) rest
          (omega (arith, length-append body (c ∷ (d ∷ [])))))
      (λ e.
        scan_pieces-IsSmall k (suc depth) (body ++ c ∷ (d ∷ [])) rest
          (omega (arith, length-append body (c ∷ (d ∷ [])))))
      (λ t.
        scan_pieces-IsSmall k (suc (suc depth)) (body ++ c ∷ []) (d ∷ rest)
          (omega (arith, length-append body (c ∷ []))))

abbrev hint_or : Bool → List Text × Counts → Text × Counts → List Text × Counts → List Text × Counts
hint_or hint skipped read later = if hint then skipped else (trim_space read.0 ∷ later.0, later.1)

module _ (f g : Text → Counts → Text × Counts) (k : ℕ)
    (agree : (t : Text) (m : Counts) → length t < k → f t m ≡ g t m) where
  read_params_agree :
      (parts : List Text) (m : Counts)
      → All (λ p. length p < k) parts
      → read_params f parts m ≡ read_params g parts m
  unfolding read_params
  read_params_agree [] m h = refl
  read_params_agree (p ∷ rest) m h =
      let here = f (trim_space p) m in
      ap (λ (x : List Text × Counts). hint_or (is_hint p) x here (read_params f rest here.1))
        (read_params_agree rest m h.1)
      ∙ ap (hint_or (is_hint p) (read_params g rest m) here) (read_params_agree rest here.1 h.1)
      ∙ ap
          (λ (r : Text × Counts).
            hint_or (is_hint p) (read_params g rest m) r (read_params g rest r.1))
          (agree (trim_space p) m (omega (arith, length-trim_space p, h.0)))

  render_parts_agree :
      (lower : Text → Text) (parts : List Text) (m : Counts)
      → All (λ p. length p < k) parts
      → render_parts f lower parts m ≡ render_parts g lower parts m
  unfolding render_parts
  render_parts_agree lower [] m h = refl
  render_parts_agree lower (part ∷ parts) m h =
      ap (λ (r : List Text × Counts). render_params (lower (trim_space part)) r.0 r.1)
        (read_params_agree parts m h.1)

  render_template_agree :
      (lower : Text → Text) (body : Text) (m : Counts)
      → length body < k
      → render_template f lower body m ≡ render_template g lower body m
  unfolding render_template
  render_template_agree lower body m lt =
      let short =
        parts_short (length body) (split_template body)
          (omega (arith, ap length (join-split_template body))) in
      render_parts_agree lower (split_template body) m
        (All-map (split_template body) (λ p le. omega arith) short)

  write_pieces_agree :
      (lower : Text → Text) (pieces : List Piece) (m : Counts)
      → All (IsSmall k) pieces
      → write_pieces f lower pieces m ≡ write_pieces g lower pieces m
  unfolding write_pieces
  write_pieces_agree lower [] m h = refl
  write_pieces_agree lower (rune_piece c ∷ pieces) m h =
      ap (λ (r : Text × Counts). (c ∷ r.0, r.1)) (write_pieces_agree lower pieces m h.1)
  write_pieces_agree lower (template_piece body ∷ pieces) m h =
      let here = render_template f lower body m in
      ap (λ (w : Text × Counts). (here.0 ++ w.0, w.1)) (write_pieces_agree lower pieces here.1 h.1)
      ∙ ap
          (λ (r : Text × Counts).
            (r.0 ++ (write_pieces g lower pieces r.1).0, (write_pieces g lower pieces r.1).1))
          (render_template_agree lower body m h.0)

  strip_once_agree :
      (lower : Text → Text) (s : Text) (m : Counts)
      → length s ≤ k
      → strip_once f lower s m ≡ strip_once g lower s m
  unfolding strip_once
  strip_once_agree lower s m le =
      let scanned = scan_pieces 0 [] s in
      ap
        (λ (r : Text × Counts). (r.0, if scanned.1 then count_up (codes "(unclosed)") r.1 else r.1))
        (write_pieces_agree lower scanned.0 m (scan_pieces-IsSmall k 0 [] s le))

strip_fuel_enough :
    (lower : Text → Text) (n o : ℕ) (s : Text) (m : Counts)
    → length s < n
    → length s < o
    → strip_fuel lower n s m ≡ strip_fuel lower o s m
unfolding strip_fuel
strip_fuel_enough lower zero o s m lt lu = absurd (omega arith)
strip_fuel_enough lower (suc n) zero s m lt lu = absurd (omega arith)
strip_fuel_enough lower (suc n) (suc o) s m lt lu =
    strip_once_agree (strip_fuel lower n) (strip_fuel lower o) (length s)
      (λ t c short. strip_fuel_enough lower n o t c (omega arith) (omega arith)) lower s m
      (omega arith)

-- However deep its templates are nested, rendering a text on more fuel than it has runes gives
-- what stripTemplates answers: the fuel is enough.
pub strip_fuel-strip_templates :
    (lower : Text → Text) (n : ℕ) (s : Text) (m : Counts)
    → length s < n
    → strip_fuel lower n s m ≡ strip_templates lower s m
unfolding strip_templates
strip_fuel-strip_templates lower n s m lt =
    strip_fuel_enough lower n (suc (length s)) s m lt (omega arith)

length-next_link :
    (opener closer s before inner after : Text)
    → next_link opener closer s ≡ some (before, (inner, after))
    → length opener + length after ≤ length s
unfolding next_link
length-next_link opener closer s before inner after is = elim (Option-cases (cut_at opener s)) [
  | inl n ↦ absurd (ground arith)
  | inr ((b, from), found) ↦ elim (Option-cases (cut_at closer from)) [
    | inl n ↦ absurd (ground arith)
    | inr ((i, a), ended) ↦
        ground (arith, length-cut_at opener s b from found, length-cut_at closer from i a ended)
  ]
]

same_cases :
    {A B : Type 0} (found : Option A) (x : B) {f g : A → B}
    → ((a : A) → found ≡ some a → f a ≡ g a)
    → (elim found [ none ↦ x | some a ↦ f a ]) ≡ (elim found [ none ↦ x | some a ↦ g a ])
same_cases none x h = refl
same_cases (some a) x h = h a refl

-- A loop over links ends within as many rounds as the text has runes.
pub strip_loop_enough :
    (opener closer : Text) (show : Text → Text) (n o : ℕ) (s : Text)
    → 1 ≤ length opener
    → length s ≤ n
    → length s ≤ o
    → strip_loop opener closer show n s ≡ strip_loop opener closer show o s
unfolding strip_loop
strip_loop_enough opener closer show zero zero s one le lo = refl
strip_loop_enough opener closer show zero (suc o) s one le lo =
    opt_split (λ (r : Text). s ≡ r) (next_link opener closer s) (λ n. refl)
      (λ (b, (i, a)) found. absurd (omega (arith, length-next_link opener closer s b i a found)))
strip_loop_enough opener closer show (suc n) zero s one le lo =
    opt_split (λ (r : Text). r ≡ s) (next_link opener closer s) (λ none_found. refl)
      (λ (b, (i, a)) found. absurd (omega (arith, length-next_link opener closer s b i a found)))
strip_loop_enough opener closer show (suc n) (suc o) s one le lo =
    same_cases (next_link opener closer s) s (λ (b, (i, a)) found.
      let shorter = length-next_link opener closer s b i a found in
      ap (λ (r : Text). b ++ (show i ++ r))
        (strip_loop_enough opener closer show n o a one (omega arith) (omega arith)))
