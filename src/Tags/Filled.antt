-- ===== src/Tags/Filled.antt =====
-- packages/tag-anatomy/src/template.ts, `expandTemplate`: a template as a site writes it, as literal text
-- and placeholders.
use matchline.Base.{
  ◌≡◌, ◌≢◌, refl, sym, ap, ◌∙◌, List, [], ◌∷◌, ◌++◌, Option, none, some, arith, Text, All,
  append_assoc, append-nil,
}
use matchline.Tags.Template.{
  TemplateContext, open_brace, close_brace, Piece, literal, placeholder, literal_piece, pieces_from,
  pieces_of, resolve_placeholder, expand_pieces, expand_template,
}

-- No brace in a text.
abbrev pub IsPlain : Text → Type 0
IsPlain = All (λ c. (c ≢ open_brace) × (c ≢ close_brace))

abbrev pub IsWritten : List Piece → Type 0
IsWritten [] = Unit
IsWritten (literal s ∷ pieces) = IsPlain s × IsWritten pieces
IsWritten (placeholder body ∷ pieces) = IsPlain body × IsWritten pieces

-- The template that is written with these pieces.
abbrev pub written : List Piece → Text
written [] = []
written (literal s ∷ pieces) = s ++ written pieces
written (placeholder body ∷ pieces) = open_brace ∷ (body ++ close_brace ∷ written pieces)

abbrev pub prepend : Text → Option Text → Option Text
prepend s none = none
prepend s (some t) = some (s ++ t)

-- Each placeholder replaced by its value; `none` if one has none.
abbrev pub filled_in : TemplateContext → List Piece → Option Text
filled_in context [] = some []
filled_in context (literal s ∷ pieces) = prepend s (filled_in context pieces)
filled_in context (placeholder body ∷ pieces) = elim (resolve_placeholder body context) [
  | none ↦ none
  | some value ↦ prepend value (filled_in context pieces)
]

prepend-prepend : (s t : Text) (o : Option Text) → prepend s (prepend t o) ≡ prepend (s ++ t) o
prepend-prepend s t none = refl
prepend-prepend s t (some u) = ap some (sym (append_assoc s t u))

pieces_from-plain :
    (before s rest : Text)
    → IsPlain s
    → pieces_from before none (s ++ rest) ≡ pieces_from (before ++ s) none rest
unfolding pieces_from
pieces_from-plain before [] rest p = rw (append-nil before)
pieces_from-plain before (c ∷ s) rest ((n, m), p) =
    ground (arith, pieces_from-plain (before ++ c ∷ []) s rest p, append_assoc before (c ∷ []) s)

pieces_from-body :
    (before body s rest : Text)
    → IsPlain s
    → pieces_from before (some body) (s ++ rest) ≡ pieces_from before (some (body ++ s)) rest
unfolding pieces_from
pieces_from-body before body [] rest p = rw (append-nil body)
pieces_from-body before body (c ∷ s) rest ((n, m), p) =
    ground (arith, pieces_from-body before (body ++ c ∷ []) s rest p, append_assoc body (c ∷ []) s)

pieces_from-placeholder :
    (before body rest : Text)
    → IsPlain body
    → pieces_from before none (open_brace ∷ (body ++ close_brace ∷ rest))
      ≡ literal_piece before (placeholder body ∷ pieces_from [] none rest)
unfolding pieces_from
pieces_from-placeholder before body rest p = pieces_from-body before [] body (close_brace ∷ rest) p

expand_pieces-literal :
    (before : Text) (pieces : List Piece) (context : TemplateContext) (expanded : Text)
    → expand_pieces (literal_piece before pieces) context expanded
      ≡ expand_pieces pieces context (expanded ++ before)
unfolding expand_pieces
expand_pieces-literal [] pieces context expanded = rw (append-nil expanded)
expand_pieces-literal (c ∷ s) pieces context expanded = refl

module _ (context : TemplateContext) where
  expand_pieces-filled :
      (before : Text) (pieces : List Piece) (expanded : Text)
      → IsWritten pieces
      → expand_pieces (pieces_from before none (written pieces)) context expanded
        ≡ prepend (expanded ++ before) (filled_in context pieces)
  unfolding pieces_from expand_pieces
  expand_pieces-filled before [] expanded w =
      expand_pieces-literal before [] context expanded
      ∙ ap some (sym (append-nil (expanded ++ before)))
  expand_pieces-filled before (literal s ∷ pieces) expanded (p, w) =
      ap (λ ps. expand_pieces ps context expanded) (pieces_from-plain before s (written pieces) p)
      ∙ expand_pieces-filled (before ++ s) pieces expanded w
      ∙ ap (λ t. prepend t (filled_in context pieces)) (sym (append_assoc expanded before s))
      ∙ sym (prepend-prepend (expanded ++ before) s (filled_in context pieces))
  expand_pieces-filled before (placeholder body ∷ pieces) expanded (p, w) =
      ap (λ ps. expand_pieces ps context expanded)
        (pieces_from-placeholder before body (written pieces) p)
      ∙ expand_pieces-literal before (placeholder body ∷ pieces_from [] none (written pieces))
          context expanded
      ∙ go (λ e. expand_pieces-filled [] pieces e w) (resolve_placeholder body context)
    where
      go :
          ((e : Text)
            → expand_pieces (pieces_from [] none (written pieces)) context e
              ≡ prepend (e ++ []) (filled_in context pieces))
          → (o : Option Text)
          → (elim o [
            | none ↦ none
            | some value ↦
                expand_pieces
                  (pieces_from [] none (written pieces))
                  context
                  ((expanded ++ before) ++ value)
          ])
            ≡ prepend
                (expanded ++ before)
                (elim o [ none ↦ none | some value ↦ prepend value (filled_in context pieces) ])
      go further none = refl
      go further (some value) =
          further ((expanded ++ before) ++ value)
          ∙ ap (λ t. prepend t (filled_in context pieces))
              (append-nil ((expanded ++ before) ++ value))
          ∙ sym (prepend-prepend (expanded ++ before) value (filled_in context pieces))

-- A template that is written with literal texts and placeholders without braces expands to the literal
-- texts with each placeholder replaced by its value, and fails if a placeholder has no value.
pub expand_template-written :
    (pieces : List Piece) (context : TemplateContext)
    → IsWritten pieces
    → expand_template (written pieces) context ≡ filled_in context pieces
unfolding expand_template pieces_of
expand_template-written pieces context w =
    expand_pieces-filled context [] pieces [] w ∙ prepend_nil (filled_in context pieces)
  where
    prepend_nil : (o : Option Text) → prepend [] o ≡ o
    prepend_nil none = refl
    prepend_nil (some t) = refl
