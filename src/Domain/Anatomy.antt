-- ===== src/Domain/Anatomy.antt =====
-- packages/domain/src/anatomy.ts: how a site's tags are taken apart. Indices are natural numbers.
use matchline.Base.{ℕ, Bool, true, false, List, Option, Text, ◌≡◌, refl, ◌↔◌, Eq}

pub data SegmentExtractor : Type 0 where
  alpha_prefix : (token : ℕ) → SegmentExtractor
  digit_suffix : (token : ℕ) → SegmentExtractor
  whole_token : (token : ℕ) → SegmentExtractor
  token_range : (from to : ℕ) → SegmentExtractor
  char_range : (token from to : ℕ) → SegmentExtractor

pub data SegmentName : Type 0 where
  role system unit_segment instance_segment : SegmentName

abbrev pub segment_beq : SegmentName → SegmentName → Bool
segment_beq role role = true
segment_beq system system = true
segment_beq unit_segment unit_segment = true
segment_beq instance_segment instance_segment = true
segment_beq _ _ = false

pub segment_beq_iff : (m n : SegmentName) → (segment_beq m n ≡ true) ↔ (m ≡ n)
segment_beq_iff role role = (λ _. refl, λ _. refl)
segment_beq_iff role system = (λ h. cc, λ h. cc)
segment_beq_iff role unit_segment = (λ h. cc, λ h. cc)
segment_beq_iff role instance_segment = (λ h. cc, λ h. cc)
segment_beq_iff system role = (λ h. cc, λ h. cc)
segment_beq_iff system system = (λ _. refl, λ _. refl)
segment_beq_iff system unit_segment = (λ h. cc, λ h. cc)
segment_beq_iff system instance_segment = (λ h. cc, λ h. cc)
segment_beq_iff unit_segment role = (λ h. cc, λ h. cc)
segment_beq_iff unit_segment system = (λ h. cc, λ h. cc)
segment_beq_iff unit_segment unit_segment = (λ _. refl, λ _. refl)
segment_beq_iff unit_segment instance_segment = (λ h. cc, λ h. cc)
segment_beq_iff instance_segment role = (λ h. cc, λ h. cc)
segment_beq_iff instance_segment system = (λ h. cc, λ h. cc)
segment_beq_iff instance_segment unit_segment = (λ h. cc, λ h. cc)
segment_beq_iff instance_segment instance_segment = (λ _. refl, λ _. refl)

instance abbrev pub segment_eq : Eq SegmentName
segment_eq = record { beq = segment_beq; beq_iff = segment_beq_iff }

pub record TagAnatomyConfig : Type 0 where
  pub separators : List Text
  pub ignored_suffixes : List Text
  pub segments : SegmentName → Option SegmentExtractor
  pub family_key_template : Option Text
  pub local_family_template : Option Text
