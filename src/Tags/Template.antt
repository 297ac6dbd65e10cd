-- ===== src/Tags/Template.antt =====
-- packages/tag-anatomy/src/template.ts: templates of family keys. The detail of a failure is left out.
use matchline.Base.{
  ℕ, ◌+◌, ◌-◌, ◌*◌, Bool, true, false, ◌&&◌, ◌||◌, List, [], ◌∷◌, ◌++◌, Option, none, some,
  if◌then◌else◌, nat_beq, leb, ltb, ◌==◌, Text, text, text_eq, length, find, drop, starts_with,
  split, get_elem?, slice_range, join_with, Map, get,
}
use matchline.Domain.Anatomy.{SegmentName, segment_eq}
use matchline.Tags.Tokens.{segment_names, segment_text, is_digit}

pub record TemplateContext : Type 0 where
  pub segments : Map SegmentName Text
  pub tokens : List Text
  pub join : Text

-- The code units of `{` and `}`.
abbrev pub open_brace : ℕ
open_brace = 123

abbrev pub close_brace : ℕ
close_brace = 125

-- A template as its matches of `/\{([^{}]*)\}/g`, each a placeholder, and what stands between them.
pub data Piece : Type 0 where
  literal : Text → Piece
  placeholder : (body : Text) → Piece

abbrev pub literal_piece : Text → List Piece → List Piece
literal_piece [] pieces = pieces
literal_piece (c ∷ s) pieces = literal (c ∷ s) ∷ pieces

-- `before` is read and in no match; `body`, if there is one, is what was read since a brace opened, and
-- has no brace. A second opening brace ends the hope for a match at the first.
unfoldable pub pieces_from : Text → Option Text → Text → List Piece
pieces_from before none [] = literal_piece before []
pieces_from before (some body) [] = literal_piece (before ++ open_brace ∷ body) []
pieces_from before none (c ∷ s) =
    if nat_beq c open_brace
    then pieces_from before (some []) s
    else pieces_from (before ++ c ∷ []) none s
pieces_from before (some body) (c ∷ s) =
    if nat_beq c open_brace
    then pieces_from (before ++ open_brace ∷ body) (some []) s
    else if nat_beq c close_brace
    then literal_piece before (placeholder body ∷ pieces_from [] none s)
    else pieces_from before (some (body ++ c ∷ [])) s

unfoldable pub pieces_of : Text → List Piece
unfolding pieces_from
pieces_of template = pieces_from [] none template

abbrev pub segment_named : Text → Option SegmentName
segment_named value = find (λ name. segment_text name == value) segment_names

-- `/^[0-9]*$/`
abbrev pub all_digits : Text → Bool
all_digits [] = true
all_digits (c ∷ s) = is_digit c && all_digits s

-- `/^(0|[1-9][0-9]*)$/`
abbrev pub is_index : Text → Bool
is_index [] = false
is_index (c ∷ s) = (nat_beq c 48 && nat_beq (length s) 0) || (leb 49 c && leb c 57 && all_digits s)

-- `Number(text)` of a string of digits.
abbrev pub number_from : ℕ → Text → ℕ
number_from n [] = n
number_from n (c ∷ s) = number_from (n * 10 + (c - 48)) s

unfoldable pub parse_index : Text → Option ℕ
unfolding is_digit
parse_index s = if is_index s then some (number_from 0 s) else none

-- The range between two indices.
abbrev pub range_value : Option ℕ → Option ℕ → TemplateContext → Option Text
range_value none to context = none
range_value (some from) none context = none
range_value (some from) (some to) context =
    if ltb to from
    then none
    else if leb (length context.tokens) to
    then none
    else some (join_with context.join (slice_range from (to + 1) context.tokens))

-- `const [fromText, toText, ...rest] = ….split('-')`
abbrev pub range_of : List Text → TemplateContext → Option Text
range_of [] context = none
range_of (from_text ∷ []) context = none
range_of (from_text ∷ to_text ∷ []) context =
    range_value (parse_index from_text) (parse_index to_text) context
range_of (from_text ∷ to_text ∷ x ∷ rest) context = none

abbrev pub token_prefix : Text
token_prefix = text "token:"

abbrev pub token_range_prefix : Text
token_range_prefix = text "tokens:"

abbrev pub token_at : Option ℕ → TemplateContext → Option Text
token_at none context = none
token_at (some index) context = get_elem? context.tokens index

unfoldable pub resolve_placeholder : Text → TemplateContext → Option Text
unfolding parse_index
resolve_placeholder body context = elim (segment_named body) [
  | some name ↦ get context.segments name
  | none ↦
      if starts_with body token_prefix
      then token_at (parse_index (drop (length token_prefix) body)) context
      else if starts_with body token_range_prefix
      then range_of (split 45 (drop (length token_range_prefix) body)) context
      else none
]

-- The loop over the matches.
unfoldable pub expand_pieces : List Piece → TemplateContext → Text → Option Text
unfolding resolve_placeholder
expand_pieces [] context expanded = some expanded
expand_pieces (literal s ∷ pieces) context expanded = expand_pieces pieces context (expanded ++ s)
expand_pieces (placeholder body ∷ pieces) context expanded =
    elim (resolve_placeholder body context) [
      | none ↦ none
      | some value ↦ expand_pieces pieces context (expanded ++ value)
    ]

unfoldable pub expand_template : Text → TemplateContext → Option Text
unfolding expand_pieces pieces_of
expand_template template context = expand_pieces (pieces_of template) context []
