-- ===== src/Builder/Wikitext/Tests.antt =====
-- Lines of wikitext, with a scanner that finds one legacy heading and no other match.
use noitu.Prelude.{
  ◌≡◌, refl, arith, false, [], ◌∷◌, ◌++◌, none, Text, codes, same, contains, leb, ltb, ◌&&◌,
}
use noitu.Builder.Syllable.{after_prefix}
use noitu.Wsapi.Nickname.{trim_space, trim_left, trim_right}
use noitu.Vietnamese.{is_space}
use noitu.Builder.Wikitext.{
  Scanner, is_some, has_prefix, cut_at, push_before, has_text, join_with, after_last,
}
use noitu.Builder.Wikitext.Links.{
  next_link, strip_loop, after_bar, show_link, show_address, strip_links,
}
use noitu.Builder.Wikitext.Templates.{
  curly, curly_or_square, push_front, split_from, split_template, push_piece, scan_pieces,
  drop_lang, template_kind, in_parens, render_params, is_hint, read_params, render_parts,
  render_template, write_pieces, strip_once, strip_fuel, strip_templates,
}
use noitu.Builder.Wikitext.Senses.{new_section_stats, definitions}
use noitu.Builder.Wikitext.Fuel.{strip_fuel-strip_templates}
use noitu.Builder.Wikitext.Glosses.{AreDefinitions, definitions-AreDefinitions}

abbrev scanner : Scanner
scanner = record {
  legacy_templates = λ line. (codes "vie", []) ∷ [];
  heading_line = λ line. none;
  section_template = λ text. none;
  headword_template = λ line. none;
  drop_comments = λ s. s;
  drop_refs = λ s. s;
  drop_tags = λ s. s;
  unescape = λ s. s;
  to_lower = λ c. c;
  is_control = λ c. ltb c 32;
  is_format = λ c. false;
  is_letter = λ c. leb 97 c && leb c 122;
  is_digit = λ c. leb 48 c && leb c 57;
}

abbrev page : Text
page = codes "a" ++ 10 ∷ (codes "{{-vie-}}" ++ 10 ∷ codes "# con {{q|xa}} [[m|ma]]")

two_parts : split_template (codes "q|a{{b|c}}") ≡ codes "q" ∷ codes "a{{b|c}}" ∷ []
unfolding split_template split_from curly_or_square push_front
two_parts = refl

labelled : (strip_templates (λ s. s) (codes "{{q|xa}} c") []).0 ≡ codes "(xa) c"
unfolding strip_templates strip_fuel strip_once scan_pieces push_piece curly write_pieces
    render_template render_parts split_template split_from curly_or_square push_front read_params
    is_hint has_text is_some cut_at push_before after_prefix trim_space trim_left trim_right
    is_space render_params template_kind contains same drop_lang in_parens join_with
labelled = refl

linked : strip_links (λ c. c) (codes "a [[m|ma]] b") ≡ codes "a ma b"
unfolding strip_links strip_loop next_link cut_at push_before after_prefix show_link show_address
    after_bar after_last has_prefix is_some
linked = refl

strip_fuel-strip_templates_example :
    strip_fuel (λ s. s) 40 (codes "{{q|x{{l|vi|a}}}} c") []
    ≡ strip_templates (λ s. s) (codes "{{q|x{{l|vi|a}}}} c") []
strip_fuel-strip_templates_example =
    strip_fuel-strip_templates (λ s. s) 40 (codes "{{q|x{{l|vi|a}}}} c") [] (omega arith)

definitions-AreDefinitions_example :
    AreDefinitions new_section_stats (definitions scanner page new_section_stats)
definitions-AreDefinitions_example = definitions-AreDefinitions scanner page new_section_stats
