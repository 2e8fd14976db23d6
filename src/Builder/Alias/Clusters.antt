-- ===== src/Builder/Alias/Clusters.antt =====
-- The clusters of a syllable hold its decomposed runes, in order.
use noitu.Prelude.{
  append_nil, append_assoc, ℕ, ◌≡◌, refl, sym, ap, ◌∙◌, false, not, ◌&&◌, List, [], ◌∷◌, ◌++◌, Text,
  null, if_split, arith,
}
use noitu.Builder.Alias.{
  Forms, Cluster, is_combining, mark_last, with_mark, add_rune, clusters_from, decompose, flatten,
  recompose,
}

flatten-append : (cs ds : List Cluster) → flatten (cs ++ ds) ≡ flatten cs ++ flatten ds
unfolding flatten
flatten-append [] ds = refl
flatten-append (c ∷ cs) ds =
    ap (λ r. c.base ∷ r)
      (ap (λ r. c.mods ++ r) (flatten-append cs ds)
        ∙ sym (append_assoc c.mods (flatten cs) (flatten ds)))

flatten-mark_last :
    (r : ℕ) (cs : List Cluster) → null cs ≡ false → flatten (mark_last r cs) ≡ flatten cs ++ r ∷ []
unfolding flatten mark_last with_mark
flatten-mark_last r [] h = absurd (ground arith)
flatten-mark_last r (c ∷ []) h =
    ap (λ ms. c.base ∷ ms) (append_assoc c.mods (r ∷ []) [] ∙ sym (append_assoc c.mods [] (r ∷ [])))
flatten-mark_last r (c ∷ (d ∷ ds)) h =
    ap (λ ms. c.base ∷ ms)
      (ap (λ q. c.mods ++ q) (flatten-mark_last r (d ∷ ds) refl)
        ∙ sym (append_assoc c.mods (flatten (d ∷ ds)) (r ∷ [])))

flatten-add_rune : (cs : List Cluster) (r : ℕ) → flatten (add_rune cs r) ≡ flatten cs ++ r ∷ []
unfolding add_rune flatten
flatten-add_rune cs r =
    if_split (λ (ds : List Cluster). flatten ds ≡ flatten cs ++ r ∷ [])
      (is_combining r && not (null cs)) (λ y. flatten-mark_last r cs (ground arith))
      (λ n. flatten-append cs (record { base = r; mods = [] } ∷ []))

flatten-clusters_from :
    (cs : List Cluster) (s : Text) → flatten (clusters_from cs s) ≡ flatten cs ++ s
unfolding clusters_from
flatten-clusters_from cs [] = sym (append_nil (flatten cs))
flatten-clusters_from cs (r ∷ rs) =
    flatten-clusters_from (add_rune cs r) rs
    ∙ ap (λ q. q ++ rs) (flatten-add_rune cs r)
    ∙ append_assoc (flatten cs) (r ∷ []) rs

-- Recomposing what was decomposed composes the decomposition of the text.
pub recompose-decompose : (f : Forms) (s : Text) → recompose f (decompose f s) ≡ f.nfc (f.nfd s)
unfolding recompose decompose flatten
recompose-decompose f s = ap f.nfc (flatten-clusters_from [] (f.nfd s))
