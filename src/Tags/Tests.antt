-- ===== src/Tags/Tests.antt =====
-- packages/tag-anatomy: the tag of the source's own example, and instances of the theorems.
use matchline.Base.{◌≡◌, refl, List, [], ◌∷◌, Option, none, some, text, All, arith}
use matchline.Domain.Anatomy.{
  TagAnatomyConfig, SegmentName, SegmentExtractor, role, system, unit_segment, instance_segment,
  alpha_prefix, digit_suffix,
}
use matchline.Tags.Tokens.{
  tokenize, tokens_from, active_separators, is_alpha, is_digit, alpha_prefix_of, digit_suffix_of,
  join_separator,
}
use matchline.Tags.Whole.{Splits, IsWhole, tokenize-Splits}
use matchline.Tags.Extract.{extract_segment}
use matchline.Tags.Template.{
  TemplateContext, Piece, literal, placeholder, pieces_of, pieces_from, resolve_placeholder,
  parse_index, expand_pieces, expand_template,
}
use matchline.Tags.Filled.{IsWritten, expand_template-written}
use matchline.Tags.Anatomy.{
  matched, miss, extractor_miss, strip_ignored_suffix, read_segments, apply_anatomy,
}

abbrev segments : SegmentName → Option SegmentExtractor
segments role = some (alpha_prefix 0)
segments system = some (digit_suffix 0)
segments unit_segment = none
segments instance_segment = none

abbrev site : TagAnatomyConfig
site = record {
  separators = text "-" ∷ text "--" ∷ [];
  ignored_suffixes = text "-SPARE" ∷ [];
  segments = segments;
  family_key_template = some (text "{system}-{tokens:1-2}");
  local_family_template = none;
}

fan_matches :
    apply_anatomy site (text "MAH001-10--01-SPARE")
    ≡ matched (record {
      segments = (role, text "MAH") ∷ (system, text "001") ∷ [];
      family_key = some (text "001-10-01");
      local_family = none;
      normalized_tag = text "MAH001-10--01";
    })
unfolding apply_anatomy strip_ignored_suffix read_segments extract_segment alpha_prefix_of
    digit_suffix_of is_alpha is_digit tokenize tokens_from active_separators join_separator
    expand_template expand_pieces pieces_of pieces_from resolve_placeholder parse_index
fan_matches = refl

short_misses : apply_anatomy site (text "MAH001-10") ≡ miss extractor_miss
unfolding apply_anatomy strip_ignored_suffix read_segments extract_segment alpha_prefix_of
    digit_suffix_of is_alpha is_digit tokenize tokens_from active_separators join_separator
    expand_template expand_pieces pieces_of pieces_from resolve_placeholder parse_index
short_misses = refl

tokenize-Splits_example :
    Splits
      (text "-" ∷ text "--" ∷ [])
      (tokenize (text "-" ∷ text "--" ∷ []) (text "MAH001-10--01"))
      (text "MAH001-10--01")
    × All
        (IsWhole (text "-" ∷ text "--" ∷ []))
        (tokenize (text "-" ∷ text "--" ∷ []) (text "MAH001-10--01"))
tokenize-Splits_example = tokenize-Splits (text "-" ∷ text "--" ∷ []) (text "MAH001-10--01")

abbrev family_pieces : List Piece
family_pieces = placeholder (text "system") ∷ literal (text "/") ∷ placeholder (text "token:1") ∷ []

abbrev fan_context : TemplateContext
fan_context = record {
  segments = (system, text "001") ∷ [];
  tokens = text "MAH001" ∷ text "10" ∷ [];
  join = text "-";
}

family_pieces-IsWritten : IsWritten family_pieces
family_pieces-IsWritten = omega arith

expand_template-written_example :
    expand_template (text "{system}/{token:1}") fan_context ≡ some (text "001/10")
unfolding resolve_placeholder parse_index is_digit
expand_template-written_example =
    expand_template-written family_pieces fan_context family_pieces-IsWritten
