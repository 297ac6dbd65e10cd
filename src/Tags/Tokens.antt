-- ===== src/Tags/Tokens.antt =====
-- packages/tag-anatomy/src/tokens.ts: character classes and the tokens of a tag.
use matchline.Base.{
  ℕ, zero, suc, ◌-◌, Bool, ◌&&◌, ◌||◌, List, [], ◌∷◌, ◌++◌, Option, none, some, if◌then◌else◌, leb,
  ltb, Text, text, length, keep_if, find, sort, compare, starts_with, reverse,
}
use matchline.Domain.Anatomy.{SegmentName, role, system, unit_segment, instance_segment}

abbrev pub segment_names : List SegmentName
segment_names = role ∷ system ∷ unit_segment ∷ instance_segment ∷ []

-- The strings of the union.
abbrev pub segment_text : SegmentName → Text
segment_text role = text "role"
segment_text system = text "system"
segment_text unit_segment = text "unit"
segment_text instance_segment = text "instance"

unfoldable pub is_alpha : ℕ → Bool
is_alpha code = (leb 0x41 code && leb code 0x5a) || (leb 0x61 code && leb code 0x7a)

unfoldable pub is_digit : ℕ → Bool
is_digit code = leb 0x30 code && leb code 0x39

-- The characters up to the first that fails the test.
abbrev pub run_of : (ℕ → Bool) → Text → Text
run_of test [] = []
run_of test (c ∷ s) = if test c then c ∷ run_of test s else []

unfoldable pub alpha_prefix_of : Text → Text
unfolding is_alpha
alpha_prefix_of token = run_of is_alpha token

-- The loop runs from the end of the token to its start.
unfoldable pub digit_suffix_of : Text → Text
unfolding is_digit
digit_suffix_of token = reverse (run_of is_digit (reverse token))

abbrev pub is_used : Text → Bool
is_used separator = ltb 0 (length separator)

-- Longest first; a stable sort.
unfoldable pub active_separators : List Text → List Text
active_separators separators =
    sort (λ left right. compare (length right) (length left)) (keep_if is_used separators)

-- `active.find((separator) => value.startsWith(separator, index))`, where `rest` is the value from
-- the index on.
abbrev pub hit_at : List Text → Text → Option Text
hit_at active rest = find (λ separator. starts_with rest separator) active

abbrev pub pushed : Text → List Text → List Text
pushed [] tokens = tokens
pushed (c ∷ token) tokens = (c ∷ token) ∷ tokens

-- The `while` loop. `token` is the value from `tokenStart` to the index, the last argument the value
-- from the index on, and `skip` how many characters of it belong to the separator that was hit.
unfoldable pub tokens_from : List Text → Text → ℕ → Text → List Text
tokens_from active token skip [] = pushed token []
tokens_from active token (suc skip) (c ∷ rest) = tokens_from active token skip rest
tokens_from active token zero (c ∷ rest) = elim (hit_at active (c ∷ rest)) [
  | none ↦ tokens_from active (token ++ c ∷ []) 0 rest
  | some hit ↦ pushed token (tokens_from active [] (length hit - 1) rest)
]

unfoldable pub tokenize : List Text → Text → List Text
unfolding tokens_from active_separators
tokenize separators value = elim (active_separators separators) [
  | [] ↦ pushed value []
  | s ∷ more ↦ tokens_from (s ∷ more) [] 0 value
]

abbrev or_empty : Option Text → Text
or_empty none = []
or_empty (some s) = s

unfoldable pub join_separator : List Text → Text
join_separator separators = or_empty (find is_used separators)
