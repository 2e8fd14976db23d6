-- ===== src/Builder/Wikitext/Codes.antt =====
-- server/cmd/build-dictionary/wikitext.go: the heading codes of both dialects.
use noitu.Prelude.{List, [], ◌∷◌, Text, codes}

abbrev pub pos_label_map : List (Text × Text)
pos_label_map =
    (codes "noun", codes "danh từ")
    ∷ (codes "n", codes "danh từ")
    ∷ (codes "verb", codes "động từ")
    ∷ (codes "v", codes "động từ")
    ∷ (codes "tr-verb", codes "động từ")
    ∷ (codes "intr-verb", codes "động từ")
    ∷ (codes "aux-verb", codes "động từ")
    ∷ (codes "adj", codes "tính từ")
    ∷ (codes "adjc", codes "tính từ")
    ∷ (codes "adjective", codes "tính từ")
    ∷ (codes "adv", codes "phó từ")
    ∷ (codes "adverb", codes "phó từ")
    ∷ (codes "advb", codes "phó từ")
    ∷ (codes "pr-noun", codes "danh từ riêng")
    ∷ (codes "proper", codes "danh từ riêng")
    ∷ (codes "propn", codes "danh từ riêng")
    ∷ (codes "proper noun", codes "danh từ riêng")
    ∷ (codes "name", codes "danh từ riêng")
    ∷ (codes "pr-adj", codes "tính từ riêng")
    ∷ (codes "place", codes "địa danh")
    ∷ (codes "pronoun", codes "đại từ")
    ∷ (codes "per-pronoun", codes "đại từ")
    ∷ (codes "num", codes "số từ")
    ∷ (codes "numeral", codes "số từ")
    ∷ (codes "conj", codes "liên từ")
    ∷ (codes "conjunction", codes "liên từ")
    ∷ (codes "prep", codes "giới từ")
    ∷ (codes "interj", codes "thán từ")
    ∷ (codes "intj", codes "thán từ")
    ∷ (codes "interjection", codes "thán từ")
    ∷ (codes "part", codes "trợ từ")
    ∷ (codes "particle", codes "trợ từ")
    ∷ (codes "phrase", codes "cụm từ")
    ∷ (codes "idiom", codes "thành ngữ")
    ∷ (codes "proverb", codes "tục ngữ")
    ∷ (codes "prov", codes "tục ngữ")
    ∷ (codes "abbr", codes "viết tắt")
    ∷ (codes "abr", codes "viết tắt")
    ∷ (codes "prefix", codes "tiền tố")
    ∷ (codes "suffix", codes "hậu tố")
    ∷ (codes "letter", codes "chữ cái")
    ∷ (codes "symbol", codes "ký hiệu")
    ∷ []

abbrev pub other_section_codes : List Text
other_section_codes =
    codes "pron"
    ∷ codes "pronunciation"
    ∷ codes "ref"
    ∷ codes "reference"
    ∷ codes "references"
    ∷ codes "trans"
    ∷ codes "translations"
    ∷ codes "paro"
    ∷ codes "paronym"
    ∷ codes "etym"
    ∷ codes "etymology"
    ∷ codes "syn"
    ∷ codes "synonym"
    ∷ codes "ant"
    ∷ codes "antonym"
    ∷ codes "info"
    ∷ codes "hanviet"
    ∷ codes "hanviet-t"
    ∷ codes "see"
    ∷ codes "see also"
    ∷ codes "related"
    ∷ codes "rel"
    ∷ codes "related terms"
    ∷ codes "drv"
    ∷ codes "der"
    ∷ codes "derived"
    ∷ codes "derived terms"
    ∷ codes "desction"
    ∷ codes "desc"
    ∷ codes "usage"
    ∷ codes "usage notes"
    ∷ codes "expr"
    ∷ codes "homo"
    ∷ codes "further"
    ∷ codes "further reading"
    ∷ codes "forms"
    ∷ codes "note"
    ∷ codes "anagram"
    ∷ codes "anagrams"
    ∷ codes "ana"
    ∷ codes "compound"
    ∷ codes "redup"
    ∷ codes "translit"
    ∷ codes "cat"
    ∷ codes "coord"
    ∷ codes "coordinate"
    ∷ codes "alt"
    ∷ codes "alter"
    ∷ codes "alter form"
    ∷ codes "alternative form"
    ∷ codes "alternative forms"
    ∷ codes "alternative script"
    ∷ codes "glyph origin"
    ∷ codes "han"
    ∷ codes "nôm"
    ∷ codes "han character"
    ∷ codes "kanji"
    ∷ codes "rom"
    ∷ codes "romanization"
    ∷ codes "mut"
    ∷ codes "participle"
    ∷ codes "ptcp"
    ∷ codes "syllable"
    ∷ codes "article"
    ∷ codes "contr"
    ∷ codes "cmavo"
    ∷ codes "dfn"
    ∷ codes "com"
    ∷ codes "phát âm"
    ∷ codes "từ nguyên"
    ∷ codes "từ nguyên 1"
    ∷ codes "từ nguyên 2"
    ∷ codes "tham khảo"
    ∷ codes "xem thêm"
    ∷ codes "cách viết khác"
    ∷ codes "phồn thể"
    ∷ codes "hán-nôm"
    ∷ codes "hán nôm"
    ∷ codes "chữ hán"
    ∷ codes "chữ nôm"
    ∷ codes "chú ý"
    ∷ codes "đồng nghĩa"
    ∷ codes "từ đồng nghĩa"
    ∷ codes "bản dịch"
    ∷ codes "dịch"
    ∷ codes "dấu phụ"
    ∷ codes "liên kết ngoài"
    ∷ codes "thuật ngữ liên quan"
    ∷ codes "từ tương tự"
    ∷ codes "meronym"
    ∷ codes "meronyms"
    ∷ codes "nguồn gốc ký tự chữ nôm"
    ∷ []
