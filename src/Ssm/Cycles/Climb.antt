-- ===== src/Ssm/Cycles/Climb.antt =====
-- packages/ssm-compiler/src/compile.ts, `findCycles`: the `while` loop that climbs the parents of
-- one asset.
use matchline.Base.{
  ◌≡◌, refl, sym, ap, ◌∙◌, inl, inr, ◌⊎◌, ℕ, zero, suc, ◌+◌, ◌<◌, ◌≤◌, true, false, List, [], ◌∷◌,
  ◌++◌, Option, none, some, if◌then◌else◌, arith, Text, text_eq, text_beq_iff, Map, get, has, keys,
  put, put_of_new, length, includes, includes-append, Bool-cases, subst,
}
use matchline.Ssm.Cycles.{Climbing, climbs_on, stepped, climb, start_path}

-- The first element, or what follows the list.
abbrev pub head_or : List Text → Option Text → Option Text
head_or [] end = end
head_or (x ∷ xs) end = some x

-- Each asset of the path has the next one as its parent, and the last has `end`.
abbrev pub Linked : Map Text Text → List Text → Option Text → Type 0
Linked parent_of [] end = Unit
Linked parent_of (x ∷ xs) end = (get parent_of x ≡ head_or xs end) × Linked parent_of xs end

Linked-concat :
    (parent_of : Map Text Text) (xs : List Text) (c : Text)
    → Linked parent_of xs (some c)
    → Linked parent_of (xs ++ c ∷ []) (get parent_of c)
Linked-concat parent_of [] c _ = (refl, tt)
Linked-concat parent_of (x ∷ []) c (e, l) = (e, (refl, tt))
Linked-concat parent_of (x ∷ y ∷ xs) c (e, l) = (e, Linked-concat parent_of (y ∷ xs) c l)

head_or-concat :
    (xs : List Text) (c : Text) (end : Option Text)
    → head_or (xs ++ c ∷ []) end ≡ head_or xs (some c)
head_or-concat [] c end = refl
head_or-concat (x ∷ xs) c end = refl

-- The places of a path's elements.
abbrev pub numbered_from : ℕ → List Text → Map Text ℕ
numbered_from n [] = []
numbered_from n (x ∷ xs) = (x, n) ∷ numbered_from (suc n) xs

numbered_from-concat :
    (n : ℕ) (xs : List Text) (c : Text)
    → numbered_from n (xs ++ c ∷ []) ≡ numbered_from n xs ++ (c, length xs + n) ∷ []
numbered_from-concat n [] c = ground arith
numbered_from-concat n (x ∷ xs) c = ground (arith, numbered_from-concat (suc n) xs c)

pub keys-numbered_from : (n : ℕ) (xs : List Text) → keys (numbered_from n xs) ≡ xs
keys-numbered_from n [] = refl
keys-numbered_from n (x ∷ xs) = ap (◌∷◌ x) (keys-numbered_from (suc n) xs)

-- How many assets the path has not met.
abbrev unvisited : List Text → List Text → ℕ
unvisited path [] = 0
unvisited path (x ∷ ids) = if includes path x then unvisited path ids else suc (unvisited path ids)

unvisited-concat_le :
    (path : List Text) (c : Text) (ids : List Text)
    → unvisited (path ++ c ∷ []) ids ≤ unvisited path ids
unvisited-concat_le path c [] = omega arith
unvisited-concat_le path c (x ∷ ids) =
    ground (arith, unvisited-concat_le path c ids, includes-append path (c ∷ []) x)

unvisited-concat_lt :
    (path : List Text) (c : Text) (ids : List Text)
    → includes ids c ≡ true
    → includes path c ≡ false
    → unvisited (path ++ c ∷ []) ids < unvisited path ids
unvisited-concat_lt path c [] i n = cc
unvisited-concat_lt path c (x ∷ ids) i n = ground (
  arith,
  unvisited-concat_lt path c ids,
  unvisited-concat_le path c ids,
  includes-append path (c ∷ []) x,
  text_beq_iff x c,
  text_beq_iff c x,
)

unvisited-nil : (ids : List Text) → unvisited [] ids ≡ length ids
unvisited-nil [] = refl
unvisited-nil (x ∷ ids) = ap suc (unvisited-nil ids)

abbrev InsideOf : List Text → Option Text → Type 0
InsideOf ids none = Unit
InsideOf ids (some x) = includes ids x ≡ true

has-numbered_from :
    (path : List Text) (positions : Map Text ℕ) (c : Text)
    → positions ≡ numbered_from 0 path
    → has positions c ≡ includes path c
has-numbered_from path positions c e = rw (e, keys-numbered_from 0 path) refl

numbered_step :
    (path : List Text) (positions : Map Text ℕ) (c : Text)
    → positions ≡ numbered_from 0 path
    → has positions c ≡ false
    → put positions c (length path) ≡ numbered_from 0 (path ++ c ∷ [])
numbered_step path positions c e new =
    put_of_new positions c (length path) new ∙ rw (e, numbered_from-concat 0 path c) (ground arith)

new_of_climbs :
    (settled : List Text) (s : Climbing) (c : Text)
    → climbs_on settled s (some c) ≡ true
    → has s.position_in_path c ≡ false
unfolding climbs_on
new_of_climbs settled s c on = ground arith

pub met_of_done :
    (settled : List Text) (s : Climbing) (c : Text)
    → climbs_on settled s (some c) ≡ false
    → (includes settled c ≡ true) ⊎ (has s.position_in_path c ≡ true)
unfolding climbs_on
met_of_done settled s c done = ground arith

module _ (parent_of : Map Text Text) (ids : List Text)
    (closed_under : (x y : Text) → get parent_of x ≡ some y → includes ids y ≡ true)
    (settled : List Text) (start_id : Text) where
  -- The state of the loop: a chain of parents from the start.
  pub record IsClimbing (s : Climbing) : Type 0 where
    pub numbered : s.position_in_path ≡ numbered_from 0 s.path
    pub linked : Linked parent_of s.path s.current
    pub started : head_or s.path s.current ≡ some start_id
    pub inside : InsideOf ids s.current

  parent_inside : (x : Text) (o : Option Text) → get parent_of x ≡ o → InsideOf ids o
  parent_inside x none e = tt
  parent_inside x (some y) e = closed_under x y e

  stepped-IsClimbing :
      (s : Climbing) (c : Text)
      → IsClimbing s
      → s.current ≡ some c
      → has s.position_in_path c ≡ false
      → IsClimbing (stepped parent_of s (some c))
  stepped-IsClimbing s c w e new = record {
    numbered = numbered_step s.path s.position_in_path c w.numbered new;
    linked = Linked-concat parent_of s.path c (rw e at w.linked);
    started = head_or-concat s.path c (get parent_of c) ∙ rw (← e) w.started;
    inside = parent_inside c (get parent_of c) refl;
  }

  start_path-IsClimbing : includes ids start_id ≡ true → IsClimbing (start_path start_id)
  start_path-IsClimbing i = record { numbered = refl; linked = tt; started = refl; inside = i }

  climb-done :
      (fuel : ℕ) (s : Climbing)
      → IsClimbing s
      → unvisited s.path ids < fuel
      → IsClimbing (climb fuel parent_of settled s)
        × (climbs_on settled
              (climb fuel parent_of settled s)
              (climb fuel parent_of settled s).current
            ≡ false)
  unfolding climb climbs_on
  climb-done zero s w h = ground arith
  climb-done (suc fuel) s w h = elim (Bool-cases (climbs_on settled s s.current)) [
    | inl on ↦ rw on (climbs (climb-done fuel) s.current refl on)
    | inr off ↦ rw off (w, off)
  ]
    where
      climbs :
          ((t : Climbing)
            → IsClimbing t
            → unvisited t.path ids < fuel
            → IsClimbing (climb fuel parent_of settled t)
              × (climbs_on settled
                    (climb fuel parent_of settled t)
                    (climb fuel parent_of settled t).current
                  ≡ false))
          → (o : Option Text) → s.current ≡ o
          → climbs_on settled s o ≡ true
          → IsClimbing (climb fuel parent_of settled (stepped parent_of s o))
            × (climbs_on settled
                  (climb fuel parent_of settled (stepped parent_of s o))
                  (climb fuel parent_of settled (stepped parent_of s o)).current
                ≡ false)
      climbs ih none e on = cc
      climbs ih (some c) e on =
          let new = new_of_climbs settled s c on in
          let met : includes ids c ≡ true = subst (InsideOf ids) e w.inside in
          let less =
            unvisited-concat_lt s.path c ids met
              (sym (has-numbered_from s.path s.position_in_path c w.numbered) ∙ new) in
          ih (stepped parent_of s (some c)) (stepped-IsClimbing s c w e new)
            (omega (arith, less, h))

  -- From an asset of the compile, the loop ends by its own test, with a unit of fuel per asset and one
  -- more.
  pub climbed :
      includes ids start_id ≡ true
      → IsClimbing (climb (suc (length ids)) parent_of settled (start_path start_id))
        × (climbs_on settled
              (climb (suc (length ids)) parent_of settled (start_path start_id))
              (climb (suc (length ids)) parent_of settled (start_path start_id)).current
            ≡ false)
  climbed i =
      climb-done (suc (length ids)) (start_path start_id) (start_path-IsClimbing i)
        (omega (arith, unvisited-nil ids))
