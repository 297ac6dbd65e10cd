-- ===== src/Tags/Whole.antt =====
-- packages/tag-anatomy/src/tokens.ts, `tokenize`: the value is the tokens and the separators between
-- them, and no token has a separator.
use matchline.Base.{
  ◌≡◌, ◌≢◌, ◌↔◌, refl, sym, ap, ◌∙◌, inl, inr, ℕ, zero, suc, ◌-◌, true, false, List, [], ◌∷◌, ◌++◌,
  none, arith, Text, length, All, starts_with, starts_with_iff, starts_with-append, Option-cases,
  append_assoc, append-nil, includes, drop, drop-append, text_eq, subst,
}
use matchline.Tags.Tokens.{tokenize, tokens_from, active_separators, hit_at, pushed}
use matchline.Tags.Separators.{IsListed, active-IsListed, hit_at-some, hit_at-none}

-- What follows a token: the end of the value, or a separator.
pub data Ends (separators : List Text) : Text → Type 0 where
  at_end : Ends separators []
  at_separator : (s rest : Text) → IsListed separators s → Ends separators (s ++ rest)

-- The value is read from left to right as tokens with listed separators between, before and after them.
pub data Splits (separators : List Text) : List Text → Text → Type 0 where
  nothing : Splits separators [] []
  skipped :
      {tokens : List Text} (s rest : Text)
      → IsListed separators s
      → Splits separators tokens rest
      → Splits separators tokens (s ++ rest)
  taken :
      {tokens : List Text} (t rest : Text)
      → Ends separators rest
      → Splits separators tokens rest
      → Splits separators (t ∷ tokens) (t ++ rest)

-- A listed separator does not stand anywhere in the text, which is not empty.
abbrev pub IsWhole : List Text → Text → Type 0
IsWhole separators t =
    (t ≢ []) × ((s before after : Text) → IsListed separators s → t ≢ before ++ (s ++ after))

module _ (active : List Text) where
  -- No separator starts in the token, whatever of the rest belongs to it.
  abbrev Clean : Text → Text → Type 0
  Clean [] rest = Unit
  Clean (c ∷ token) rest = (hit_at active (c ∷ (token ++ rest)) ≡ none) × Clean token rest

  Clean-concat :
      (token rest : Text) (c : ℕ)
      → Clean token (c ∷ rest)
      → hit_at active (c ∷ rest) ≡ none
      → Clean (token ++ c ∷ []) rest
  Clean-concat [] rest c k h = (h, tt)
  Clean-concat (d ∷ token) rest c (g, k) h =
      (rw (append_assoc token (c ∷ []) rest) g, Clean-concat token rest c k h)

  -- What is clean has no separator anywhere.
  Clean-apart :
      (token rest s before after : Text)
      → Clean token rest
      → includes active s ≡ true
      → s ≢ []
      → token ≢ before ++ (s ++ after)
  Clean-apart [] rest [] before after k m n e = n refl
  Clean-apart [] rest (d ∷ s) [] after k m n e = cc
  Clean-apart [] rest (d ∷ s) (b ∷ before) after k m n e = cc
  Clean-apart (c ∷ token) rest s [] after (h, k) m n e =
      let f : c ∷ (token ++ rest) ≡ s ++ (after ++ rest) =
        ap (λ t. t ++ rest) e ∙ append_assoc s after rest in
      let off : starts_with (s ++ (after ++ rest)) s ≡ false =
        subst (λ t. starts_with t s ≡ false) f (hit_at-none active (c ∷ (token ++ rest)) s h m) in
      let on : starts_with (s ++ (after ++ rest)) s ≡ true = starts_with-append s (after ++ rest) in
      cc
  Clean-apart (c ∷ token) rest s (b ∷ before) after (h, k) m n e =
      let f : token ≡ before ++ (s ++ after) = cc in Clean-apart token rest s before after k m n f

-- What is left of the value after the separator that it starts with.
after_hit :
    (hit : Text) (c : ℕ) (rest r : Text)
    → hit ≢ []
    → c ∷ rest ≡ hit ++ r
    → r ≡ drop (length hit - 1) rest
after_hit [] c rest r n e = absurd (n refl)
after_hit (h ∷ hit) c rest r n e =
    let f : rest ≡ hit ++ r = cc in
    let same : length (h ∷ hit) - 1 ≡ length hit = omega arith in
    rw same (sym (ap (drop (length hit)) f ∙ drop-append hit r))

module _ (separators active : List Text)
    (act : (s : Text) → (includes active s ≡ true) ↔ IsListed separators s) where
  pushed-IsWhole :
      (token rest : Text) (tokens : List Text)
      → Clean active token rest
      → All (IsWhole separators) tokens
      → All (IsWhole separators) (pushed token tokens)
  pushed-IsWhole [] rest tokens k all = all
  pushed-IsWhole (c ∷ token) rest tokens k all = (
    (
      λ e. cc,
      λ s before after l. Clean-apart active (c ∷ token) rest s before after k ((act s).1 l) l.1,
    ),
    all,
  )

  -- While a separator is skipped, no token has begun.
  abbrev Reading : Text → ℕ → Text → Type 0
  Reading token zero rest = Clean active token rest
  Reading token (suc skip) rest = token ≡ []

  Reading-start : (skip : ℕ) (rest : Text) → Reading [] skip rest
  Reading-start zero rest = tt
  Reading-start (suc skip) rest = refl

  tokens_from-IsWhole :
      (token : Text) (skip : ℕ) (rest : Text)
      → Reading token skip rest
      → All (IsWhole separators) (tokens_from active token skip rest)
  unfolding tokens_from
  tokens_from-IsWhole token zero [] r = pushed-IsWhole token [] [] r tt
  tokens_from-IsWhole token (suc skip) [] r = rw r tt
  tokens_from-IsWhole token (suc skip) (c ∷ rest) r =
      rw r (tokens_from-IsWhole [] skip rest (Reading-start skip rest))
  tokens_from-IsWhole token zero (c ∷ rest) r = elim (Option-cases (hit_at active (c ∷ rest))) [
    | inl clear ↦
        rw (clear, tokens_from)
          (tokens_from-IsWhole (token ++ c ∷ []) zero rest
            (Clean-concat active token rest c r clear))
    | inr (hit, e) ↦
        rw (e, tokens_from)
          (pushed-IsWhole token (c ∷ rest) (tokens_from active [] (length hit - 1) rest) r
            (tokens_from-IsWhole [] (length hit - 1) rest (Reading-start (length hit - 1) rest)))
  ]

  pushed-Splits :
      (token rest : Text) (tokens : List Text)
      → Ends separators rest
      → Splits separators tokens rest
      → Splits separators (pushed token tokens) (token ++ rest)
  pushed-Splits [] rest tokens ends k = k
  pushed-Splits (c ∷ token) rest tokens ends k = taken (c ∷ token) rest ends k

  last-Splits : (token : Text) → Splits separators (pushed token []) (token ++ [])
  last-Splits token = pushed-Splits token [] [] at_end nothing

  tokens_from-Splits :
      (token : Text) (skip : ℕ) (rest : Text)
      → Splits separators (tokens_from active token skip rest) (token ++ drop skip rest)
  unfolding tokens_from
  tokens_from-Splits token zero [] = last-Splits token
  tokens_from-Splits token (suc skip) [] = last-Splits token
  tokens_from-Splits token (suc skip) (c ∷ rest) = tokens_from-Splits token skip rest
  tokens_from-Splits token zero (c ∷ rest) = elim (Option-cases (hit_at active (c ∷ rest))) [
    | inl clear ↦
        rw (clear, tokens_from)
          (subst (Splits separators (tokens_from active (token ++ c ∷ []) 0 rest))
            (append_assoc token (c ∷ []) rest) (tokens_from-Splits (token ++ c ∷ []) zero rest))
    | inr (hit, e) ↦
        let (m, on) = hit_at-some active (c ∷ rest) hit e in
        let (r, cut) = (starts_with_iff (c ∷ rest) hit).0 on in
        let listed = (act hit).0 m in
        let whole : hit ++ drop (length hit - 1) rest ≡ c ∷ rest =
          sym (cut ∙ ap (λ q. hit ++ q) (after_hit hit c rest r listed.1 cut)) in
        rw (e, tokens_from)
          (subst
            (λ v.
              Splits separators (pushed token (tokens_from active [] (length hit - 1) rest))
                (token ++ v))
            whole
            (pushed-Splits token (hit ++ drop (length hit - 1) rest)
              (tokens_from active [] (length hit - 1) rest)
              (at_separator hit (drop (length hit - 1) rest) listed)
              (skipped hit (drop (length hit - 1) rest) listed
                (tokens_from-Splits [] (length hit - 1) rest))))
  ]

-- The tokens are the value cut at separators: read from left to right, the value is the tokens in order,
-- each ended by the end of the value or a listed separator that is not empty, with only such separators
-- besides them. And no token is empty or has a listed separator that is not empty anywhere in it.
pub tokenize-Splits :
    (separators : List Text) (value : Text)
    → Splits separators (tokenize separators value) value
      × All (IsWhole separators) (tokenize separators value)
unfolding tokenize
tokenize-Splits separators value =
    go (active_separators separators) (active-IsListed separators) value
  where
    uncut :
        ((s : Text) → (includes [] s ≡ true) ↔ IsListed separators s)
        → (value : Text) → All (IsWhole separators) (pushed value [])
    uncut act [] = tt
    uncut act (c ∷ s) =
        ((λ e. cc, λ q before after l. let f : false ≡ true = (act q).1 l in cc), tt)

    go :
        (active : List Text)
        → ((s : Text) → (includes active s ≡ true) ↔ IsListed separators s)
        → (value : Text)
        → Splits separators
            (elim active [ [] ↦ pushed value [] | s ∷ more ↦ tokens_from (s ∷ more) [] 0 value ])
            value
          × All
              (IsWhole separators)
              (elim active [ [] ↦ pushed value [] | s ∷ more ↦ tokens_from (s ∷ more) [] 0 value ])
    go [] act value = (
      subst (Splits separators (pushed value [])) (append-nil value)
          (last-Splits separators [] act value),
      uncut act value,
    )
    go (s ∷ more) act value = (
      tokens_from-Splits separators (s ∷ more) act [] 0 value,
      tokens_from-IsWhole separators (s ∷ more) act [] 0 value tt,
    )
