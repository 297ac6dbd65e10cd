-- ===== src/Tags/Anatomy.antt =====
-- packages/tag-anatomy/src/anatomy.ts: the segments of a tag. The detail of a miss is left out.
use matchline.Base.{
  ◌-◌, List, [], ◌∷◌, Option, none, some, Text, length, keep_if, find, sort, compare, ends_with,
  take, Map, put,
}
use matchline.Domain.Anatomy.{SegmentName, segment_eq, TagAnatomyConfig}
use matchline.Tags.Tokens.{segment_names, is_used, tokenize, join_separator}
use matchline.Tags.Extract.{extract_segment}
use matchline.Tags.Template.{TemplateContext, expand_template}

pub data AnatomyMissReason : Type 0 where
  empty_tag no_tokens extractor_miss : AnatomyMissReason

pub record AnatomyMatch : Type 0 where
  pub segments : Map SegmentName Text
  pub family_key : Option Text
  pub local_family : Option Text
  pub normalized_tag : Text

pub data AnatomyResult : Type 0 where
  matched : AnatomyMatch → AnatomyResult
  miss : AnatomyMissReason → AnatomyResult

abbrev pub without_suffix : Text → Option Text → Text
without_suffix tag none = tag
without_suffix tag (some hit) = take (length tag - length hit) tag

unfoldable pub strip_ignored_suffix : Text → List Text → Text
strip_ignored_suffix tag suffixes = without_suffix tag (
    find (λ suffix. ends_with tag suffix)
      (sort (λ left right. compare (length right) (length left)) (keep_if is_used suffixes)))

module _ (config : TagAnatomyConfig) where
  -- The loop over `SEGMENT_NAMES`; `none` if an extractor fails.
  unfoldable pub read_segments :
      List SegmentName → List Text → Map SegmentName Text → Option (Map SegmentName Text)
  unfolding extract_segment
  read_segments [] tokens segments = some segments
  read_segments (name ∷ names) tokens segments = elim (config.segments name) [
    | none ↦ read_segments names tokens segments
    | some extractor ↦ elim (extract_segment extractor tokens (join_separator config.separators)) [
      | none ↦ none
      | some value ↦ read_segments names tokens (put segments name value)
    ]
  ]

  -- An optional template: `none` if it fails, `some none` if there is none.
  abbrev pub expanded : Option Text → TemplateContext → Option (Option Text)
  expanded none context = some none
  expanded (some template) context = elim (expand_template template context) [
    | none ↦ none
    | some value ↦ some (some value)
  ]

  -- The match, if both templates could be filled.
  abbrev pub filled :
      Text → Map SegmentName Text → Option (Option Text) → Option (Option Text) → AnatomyResult
  filled normalized_tag segments none local_family = miss extractor_miss
  filled normalized_tag segments (some family_key) none = miss extractor_miss
  filled normalized_tag segments (some family_key) (some local_family) = matched (record {
    segments = segments;
    family_key = family_key;
    local_family = local_family;
    normalized_tag = normalized_tag;
  })

  abbrev pub template_context : List Text → Map SegmentName Text → TemplateContext
  template_context tokens segments = record {
    segments = segments;
    tokens = tokens;
    join = join_separator config.separators;
  }

  abbrev pub read_tokens : Text → List Text → AnatomyResult
  read_tokens normalized_tag [] = miss no_tokens
  read_tokens normalized_tag (t ∷ ts) = elim (read_segments segment_names (t ∷ ts) []) [
    | none ↦ miss extractor_miss
    | some segments ↦
        filled normalized_tag segments
          (expanded config.family_key_template (template_context (t ∷ ts) segments))
          (expanded config.local_family_template (template_context (t ∷ ts) segments))
  ]

  abbrev pub read_normalized : Text → AnatomyResult
  read_normalized [] = miss empty_tag
  read_normalized (c ∷ s) = read_tokens (c ∷ s) (tokenize config.separators (c ∷ s))

  unfoldable pub apply_anatomy : Text → AnatomyResult
  unfolding read_segments
  apply_anatomy [] = miss empty_tag
  apply_anatomy (c ∷ s) = read_normalized (strip_ignored_suffix (c ∷ s) config.ignored_suffixes)
