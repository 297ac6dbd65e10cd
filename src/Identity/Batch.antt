-- ===== src/Identity/Batch.antt =====
-- packages/identity/src/resolve.ts, `resolveTags`: the outcomes and the review items of a batch of tags.
use matchline.Base.{
  arith, ◌≡◌, ℕ, ◌==◌, ◌||◌, refl, sym, ap, ap₂, ◌∙◌, inl, inr, true, List, [], ◌∷◌, ◌++◌, map,
  Bool, false, Text, text_eq, text_beq_iff, includes, includes-append, IsDistinct,
  IsDistinct-concat, All, All-imp, All-concat, Bool-cases, subst, append_assoc, append-nil,
}
use mathlib.Core.List.{Mem, mem-cons_self, mem-cons_of_mem}
use matchline.Domain.Review.{ReviewItem}
use matchline.Identity.Build.{IdentityIndex}
use matchline.Identity.Resolve.{
  resolve_one, resolve_tag, Batch, item_kind, raise_items, resolve_from, resolve_tags,
}
use matchline.Identity.Kinds.{
  identity, seen_key, seen_identity, IsFor, seen_key-of_item, seen_identity-seen_key,
  resolve_one-IsFor,
}

abbrev identities : List ReviewItem → List (List ℕ)
identities = map identity

abbrev IsRead : List ℕ → Type 0
IsRead k = seen_identity (seen_key k) ≡ k

-- What holds while a batch is resolved: the seen keys are those of the items so far, of which no two
-- have the same kind and tag.
abbrev IsSeenOnce : Batch → Type 0
IsSeenOnce b =
    (b.seen ≡ map seen_key (identities b.review_items))
    × IsDistinct (identities b.review_items)
    × All IsRead (identities b.review_items)

-- An item with this kind and tag is in the batch.
abbrev IsRaisedIn : Batch → ReviewItem → Type 0
IsRaisedIn b i = includes (identities b.review_items) (identity i) ≡ true

map-concat {ℓ κ} :
    {A : Type ℓ} {B : Type κ} (f : A → B) (xs : List A) (x : A)
    → map f (xs ++ x ∷ []) ≡ map f xs ++ f x ∷ []
map-concat f [] x = refl
map-concat f (y ∷ xs) x = ap (◌∷◌ (f y)) (map-concat f xs x)

-- A key is seen exactly if an item with that kind and tag is there.
includes-seen_key :
    (ks : List (List ℕ)) (k : List ℕ)
    → All IsRead ks
    → IsRead k
    → includes (map seen_key ks) (seen_key k) ≡ includes ks k
includes-seen_key [] k _ e = refl
includes-seen_key (j ∷ ks) k (d, ds) e = ap₂ ◌||◌ same (includes-seen_key ks k ds e)
  where
    same : (seen_key j == seen_key k) ≡ (j == k)
    same = elim (Bool-cases (j == k)) [
      | inl s ↦
          let q : j ≡ k = (text_beq_iff j k).0 s in
          (text_beq_iff (seen_key j) (seen_key k)).1 (ap seen_key q) ∙ sym s
      | inr n ↦ elim (Bool-cases (seen_key j == seen_key k)) [
        | inr m ↦ m ∙ sym n
        | inl t ↦
            let q : j ≡ k =
              sym d ∙ ap seen_identity ((text_beq_iff (seen_key j) (seen_key k)).0 t) ∙ e in
            let u : false ≡ true = sym n ∙ (text_beq_iff j k).1 q in cc
      ]
    ]

abbrev with_item : Text → ReviewItem → Batch → Batch
with_item tag item b = record b {
  review_items = b.review_items ++ item ∷ [];
  seen = b.seen ++ (item_kind item ++ 0 ∷ tag) ∷ [];
}

abbrev with_outcome : (Text → Text) → IdentityIndex → Text → Batch → Batch
with_outcome upper index tag b = record b {
  outcomes = b.outcomes ++ (resolve_one upper index tag).outcome ∷ [];
}

or_true : (b : Bool) → (b || (true || false)) ≡ true
or_true true = refl
or_true false = refl

seen_here :
    (tag : Text) (item : ReviewItem) (b : Batch)
    → IsFor tag item
    → IsSeenOnce b
    → includes b.seen (item_kind item ++ 0 ∷ tag)
      ≡ includes (identities b.review_items) (identity item)
seen_here tag item b k (keys, apart, read) =
    ap₂ includes keys (seen_key-of_item tag item k)
    ∙ includes-seen_key (identities b.review_items) (identity item) read
        (seen_identity-seen_key tag item k)

with_item-IsSeenOnce :
    (tag : Text) (item : ReviewItem) (b : Batch)
    → IsFor tag item
    → IsSeenOnce b
    → includes b.seen (item_kind item ++ 0 ∷ tag) ≡ false
    → IsSeenOnce (with_item tag item b)
with_item-IsSeenOnce tag item b k (keys, apart, read) new =
    let ids : map identity (b.review_items ++ item ∷ [])
        ≡ identities b.review_items ++ identity item ∷ [] =
      map-concat identity b.review_items item in
    (
      ap₂ (λ s x. s ++ x ∷ []) keys (seen_key-of_item tag item k)
          ∙ sym (map-concat seen_key (identities b.review_items) (identity item))
          ∙ ap (map seen_key) (sym ids),
      subst IsDistinct (sym ids) (
          IsDistinct-concat (identities b.review_items) (identity item) apart
            (sym (seen_here tag item b k (keys, apart, read)) ∙ new)),
      subst (All IsRead) (sym ids)
          (All-concat IsRead (identities b.review_items) read (seen_identity-seen_key tag item k)),
    )

raise_items-IsSeenOnce :
    (tag : Text) (items : List ReviewItem) (b : Batch)
    → All (IsFor tag) items
    → IsSeenOnce b
    → IsSeenOnce (raise_items tag items b) × ((raise_items tag items b).outcomes ≡ b.outcomes)
unfolding raise_items
raise_items-IsSeenOnce tag [] b _ h = (h, refl)
raise_items-IsSeenOnce tag (item ∷ items) b (k, ks) h =
    elim (Bool-cases (includes b.seen (item_kind item ++ 0 ∷ tag))) [
      | inl old ↦ rw (old, raise_items) (raise_items-IsSeenOnce tag items b ks h)
      | inr new ↦
          rw (new, raise_items)
            (raise_items-IsSeenOnce tag items (with_item tag item b) ks
              (with_item-IsSeenOnce tag item b k h new))
    ]

-- What is in the batch stays.
raise_items-keeps :
    (tag : Text) (items : List ReviewItem) (b : Batch) (k : List ℕ)
    → includes (identities b.review_items) k ≡ true
    → includes (identities (raise_items tag items b).review_items) k ≡ true
unfolding raise_items
raise_items-keeps tag [] b k h = h
raise_items-keeps tag (item ∷ items) b k h =
    elim (Bool-cases (includes b.seen (item_kind item ++ 0 ∷ tag))) [
      | inl old ↦ rw (old, raise_items) (raise_items-keeps tag items b k h)
      | inr new ↦
          rw (new, raise_items)
            (raise_items-keeps tag items
              (record b {
                review_items = b.review_items ++ item ∷ [];
                seen = b.seen ++ (item_kind item ++ 0 ∷ tag) ∷ [];
              })
              k
              (rw
                (
                  map-concat identity b.review_items item,
                  includes-append (identities b.review_items) (identity item ∷ []) k,
                  h,
                )
                refl))
    ]

raise_items-old :
    (tag : Text) (item : ReviewItem) (items : List ReviewItem) (b : Batch)
    → includes b.seen (item_kind item ++ 0 ∷ tag) ≡ true
    → raise_items tag items b ≡ raise_items tag (item ∷ items) b
unfolding raise_items
raise_items-old tag item items b old = rw old refl

raise_items-new :
    (tag : Text) (item : ReviewItem) (items : List ReviewItem) (b : Batch)
    → includes b.seen (item_kind item ++ 0 ∷ tag) ≡ false
    → raise_items tag items (with_item tag item b) ≡ raise_items tag (item ∷ items) b
unfolding raise_items
raise_items-new tag item items b new = rw new refl

-- No item is left out but where one with its kind and tag is there.
raise_items-raises :
    (tag : Text) (items : List ReviewItem) (b : Batch)
    → All (IsFor tag) items
    → IsSeenOnce b
    → All (IsRaisedIn (raise_items tag items b)) items
raise_items-raises tag [] b _ h = tt
raise_items-raises tag (item ∷ items) b (k, ks) h =
    elim (Bool-cases (includes b.seen (item_kind item ++ 0 ∷ tag))) [
      | inl old ↦
          subst (λ r. All (IsRaisedIn r) (item ∷ items)) (raise_items-old tag item items b old)
            (
              raise_items-keeps tag items b (identity item) (sym (seen_here tag item b k h) ∙ old),
              raise_items-raises tag items b ks h,
            )
      | inr new ↦
          subst (λ r. All (IsRaisedIn r) (item ∷ items)) (raise_items-new tag item items b new)
            (
              raise_items-keeps tag items (with_item tag item b) (identity item) (
                  rw
                    (
                      map-concat identity b.review_items item,
                      includes-append (identities b.review_items) (identity item ∷ [])
                          (identity item),
                      (text_beq_iff (identity item) (identity item)).1 refl,
                    )
                    (or_true (includes (identities b.review_items) (identity item)))),
              raise_items-raises tag items (with_item tag item b) ks
                  (with_item-IsSeenOnce tag item b k h new),
            )
    ]

resolve_from-outcomes :
    (upper : Text → Text) (index : IdentityIndex) (tags : List Text) (b : Batch)
    → IsSeenOnce b
    → IsSeenOnce (resolve_from upper index tags b)
      × ((resolve_from upper index tags b).outcomes
          ≡ b.outcomes ++ map (resolve_tag upper index) tags)
unfolding resolve_from
resolve_from-outcomes upper index [] b h = (h, sym (append-nil b.outcomes))
resolve_from-outcomes upper index (tag ∷ tags) b h =
    let b' = with_outcome upper index tag b in
    let items = (resolve_one upper index tag).review_items in
    let (s, o) = raise_items-IsSeenOnce tag items b' (resolve_one-IsFor upper index tag) h in
    let (s', o') = resolve_from-outcomes upper index tags (raise_items tag items b') s in
    (s', o' ∙ ap (λ os. os ++ map (resolve_tag upper index) tags) o ∙ append_assoc b.outcomes _ _)

resolve_from-keeps :
    (upper : Text → Text) (index : IdentityIndex) (tags : List Text) (b : Batch) (k : List ℕ)
    → includes (identities b.review_items) k ≡ true
    → includes (identities (resolve_from upper index tags b).review_items) k ≡ true
unfolding resolve_from
resolve_from-keeps upper index [] b k h = h
resolve_from-keeps upper index (tag ∷ tags) b k h =
    let items = (resolve_one upper index tag).review_items in
    resolve_from-keeps upper index tags (raise_items tag items (with_outcome upper index tag b)) k
      (raise_items-keeps tag items (with_outcome upper index tag b) k h)

resolve_from-raises :
    (upper : Text → Text) (index : IdentityIndex) (tags : List Text) (b : Batch)
    → IsSeenOnce b
    → All
        (λ tag.
          All
            (IsRaisedIn (resolve_from upper index tags b))
            (resolve_one upper index tag).review_items)
        tags
unfolding resolve_from
resolve_from-raises upper index [] b h = tt
resolve_from-raises upper index (tag ∷ tags) b h =
    let items = (resolve_one upper index tag).review_items in
    let b' = raise_items tag items (with_outcome upper index tag b) in
    let are_for = resolve_one-IsFor upper index tag in
    (
      All-imp (λ i r. resolve_from-keeps upper index tags b' (identity i) r) items
          (raise_items-raises tag items (with_outcome upper index tag b) are_for h),
      resolve_from-raises upper index tags b'
          (raise_items-IsSeenOnce tag items (with_outcome upper index tag b) are_for h).0,
    )

module _ {κ} (P : ReviewItem → Type κ) where
  raise_items-All :
      (tag : Text) (items : List ReviewItem) (b : Batch)
      → All P items
      → All P b.review_items
      → All P (raise_items tag items b).review_items
  unfolding raise_items
  raise_items-All tag [] b _ h = h
  raise_items-All tag (item ∷ items) b (p, ps) h =
      elim (Bool-cases (includes b.seen (item_kind item ++ 0 ∷ tag))) [
        | inl old ↦ rw (old, raise_items) (raise_items-All tag items b ps h)
        | inr new ↦
            rw (new, raise_items)
              (raise_items-All tag items (with_item tag item b) ps
                (All-concat P b.review_items h p))
      ]

  resolve_from-All :
      (upper : Text → Text) (index : IdentityIndex) (tags : List Text) (b : Batch)
      → ((tag : Text) → includes tags tag ≡ true → All P (resolve_one upper index tag).review_items)
      → All P b.review_items
      → All P (resolve_from upper index tags b).review_items
  unfolding resolve_from
  resolve_from-All upper index [] b each h = h
  resolve_from-All upper index (tag ∷ tags) b each h =
      let own : (tag == tag) ≡ true = (text_beq_iff tag tag).1 refl in
      resolve_from-All upper index tags
        (raise_items tag (resolve_one upper index tag).review_items
          (with_outcome upper index tag b))
        (λ t m. each t (ground arith))
        (raise_items-All tag (resolve_one upper index tag).review_items
          (with_outcome upper index tag b) (each tag (rw own refl)) h)

All-mem {ℓ} : {A : Type ℓ} (xs : List A) → All (λ x. Mem x xs) xs
All-mem [] = tt
All-mem (x ∷ xs) = (mem-cons_self, All-imp (λ y m. mem-cons_of_mem x m) xs (All-mem xs))

-- The item is one that a tag of the list raises alone.
abbrev pub IsOfTag : (Text → Text) → IdentityIndex → List Text → ReviewItem → Type 0
IsOfTag upper index tags i =
    (tag : Text) × (includes tags tag ≡ true) × Mem i (resolve_one upper index tag).review_items

resolve_from-IsOfTag :
    (upper : Text → Text) (index : IdentityIndex) (tags : List Text) (b : Batch)
    → All (IsOfTag upper index tags) b.review_items
    → All (IsOfTag upper index tags) (resolve_from upper index tags b).review_items
resolve_from-IsOfTag upper index tags b h =
    resolve_from-All (IsOfTag upper index tags) upper index tags b
      (λ tag m.
        All-imp (λ i k. (tag, m, k)) (resolve_one upper index tag).review_items
          (All-mem (resolve_one upper index tag).review_items))
      h

-- A batch has one outcome for each tag, in order, the one that the tag has alone. No two of its review
-- items have the same kind and the same tag; for each item that a tag raises alone, one with its kind
-- and tag is in the batch; and each item of the batch is one that a tag raises alone.
pub resolve_tags-outcomes :
    (upper : Text → Text) (index : IdentityIndex) (tags : List Text)
    → ((resolve_tags upper index tags).outcomes ≡ map (resolve_tag upper index) tags)
      × IsDistinct (map identity (resolve_tags upper index tags).review_items)
      × All
          (λ tag.
            All
              (λ i.
                includes (map identity (resolve_tags upper index tags).review_items) (identity i)
                ≡ true)
              (resolve_one upper index tag).review_items)
          tags
      × All (IsOfTag upper index tags) (resolve_tags upper index tags).review_items
unfolding resolve_tags
resolve_tags-outcomes upper index tags =
    let start : Batch = record { outcomes = []; review_items = []; seen = [] } in
    let ((_, apart, _), o) = resolve_from-outcomes upper index tags start (refl, tt, tt) in
    (
      o,
      apart,
      resolve_from-raises upper index tags start (refl, tt, tt),
      resolve_from-IsOfTag upper index tags start tt,
    )
