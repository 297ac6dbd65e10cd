-- ===== src/Identity/Normalize.antt =====
-- packages/identity/src/normalize.ts. `toUpperCase` follows the tables of the Unicode standard: it is a
-- parameter.
use matchline.Base.{
  ℕ, zero, suc, ◌-◌, ◌&&◌, List, [], ◌∷◌, ◌++◌, if◌then◌else◌, ltb, ◌==◌, nat_eq, Text, text_eq,
  length, drop, starts_with, reverse, includes,
}
use matchline.Domain.Identity.{NormalizationStep, trim, uppercase, strip_prefix, pad_start, alias}

-- The code units that `String.prototype.trim` removes.
abbrev pub white_space : List ℕ
white_space =
    0x9 ∷ 0xa ∷ 0xb ∷ 0xc ∷ 0xd ∷ 0x20 ∷ 0xa0 ∷ 0x1680 ∷ 0x2000 ∷ 0x2001 ∷ 0x2002 ∷ 0x2003 ∷ 0x2004
    ∷ 0x2005 ∷ 0x2006 ∷ 0x2007 ∷ 0x2008 ∷ 0x2009 ∷ 0x200a ∷ 0x2028 ∷ 0x2029 ∷ 0x202f ∷ 0x205f
    ∷ 0x3000 ∷ 0xfeff ∷ []

unfoldable pub trim_start : Text → Text
trim_start [] = []
trim_start (c ∷ s) = if includes white_space c then trim_start s else c ∷ s

abbrev pub trimmed : Text → Text
trimmed s = reverse (trim_start (reverse (trim_start s)))

-- `n` units of a fill that is repeated, of which `left` is still to come in this round.
unfoldable pub fill_of : ℕ → Text → Text → Text
fill_of zero fill left = []
fill_of (suc n) fill (c ∷ left) = c ∷ fill_of n fill left
fill_of (suc n) [] [] = []
fill_of (suc n) (c ∷ fill) [] = c ∷ fill_of n (c ∷ fill) fill

-- `s.padStart(n, fill)`
abbrev pub padded : ℕ → Text → Text → Text
padded n fill s = fill_of (n - length s) fill fill ++ s

module _ (to_upper_case : Text → Text) where
  unfoldable pub apply_step : Text → NormalizationStep → Text
  unfolding trim_start fill_of
  apply_step value trim = trimmed value
  apply_step value uppercase = to_upper_case value
  apply_step value (strip_prefix prefix) =
      if ltb 0 (length prefix) && starts_with value prefix
      then drop (length prefix) value
      else value
  apply_step value (pad_start n fill) = if length fill == 0 then value else padded n fill value
  apply_step value (alias from to) = if value == from then to else value

  unfoldable pub normalize_tag : Text → List NormalizationStep → Text
  unfolding apply_step
  normalize_tag value [] = value
  normalize_tag value (step ∷ steps) = normalize_tag (apply_step value step) steps
