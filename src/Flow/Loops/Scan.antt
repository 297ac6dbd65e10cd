-- ===== src/Flow/Loops/Scan.antt =====
-- packages/electrical-flow/src/cycles.ts, `representativeCycle`: the search of one step.
use matchline.Base.{
  ◌≡◌, refl, ap, ◌∙◌, sym, inl, inr, ◌⊎◌, ℕ, suc, ◌+◌, ◌≤◌, true, false, not, ◌||◌, ◌&&◌, List, [],
  ◌∷◌, ◌++◌, some, if◌then◌else◌, arith, Text, text_eq, text_beq_iff, ◌==◌, includes,
  includes-append, length, length-append, Map, get, has, put, get-put, has-put, put_of_new,
  Bool-cases, some_injective, subst,
}
use matchline.Flow.Cycles.{FeedAdjacency}
use matchline.Flow.Loops.{LoopSearch, LoopScan, closes, goes_on, scanned, scan_targets}
use matchline.Flow.Loops.Paths.{Arc, Up, up, Up-put}

module _ (members : List Text) (adjacency : FeedAdjacency) (start : Text) where
  -- `start`, and the nodes that have a parent.
  abbrev pub Known : LoopSearch → Text → Type 0
  Known s x = (start == x || has s.parents x) ≡ true

  pub record IsSearch (s : LoopSearch) : Type 0 where
    pub free : has s.parents start ≡ false
    pub arcs : (x y : Text) → get s.parents x ≡ some y → Arc adjacency y x
    pub paths :
        (x : Text)
        → Known s x
        → (l : List Text) × Up adjacency start s.parents x l × (length l ≤ suc (length s.parents))
    pub queued : (x : Text) → includes s.queue x ≡ true → Known s x

  -- The members that have no parent yet.
  abbrev pub unseen : Map Text Text → List Text → ℕ
  unseen m [] = 0
  unseen m (x ∷ xs) = if has m x then unseen m xs else suc (unseen m xs)

  unseen-put_le :
      (m : Map Text Text) (k v : Text) (xs : List Text) → unseen (put m k v) xs ≤ unseen m xs
  unseen-put_le m k v [] = omega arith
  unseen-put_le m k v (x ∷ xs) = ground (arith, unseen-put_le m k v xs, has-put m k x v)

  unseen-put_lt :
      (m : Map Text Text) (k v : Text) (xs : List Text)
      → has m k ≡ false
      → includes xs k ≡ true
      → suc (unseen (put m k v) xs) ≤ unseen m xs
  unseen-put_lt m k v [] new h = cc
  unseen-put_lt m k v (x ∷ xs) new h = ground (
    arith,
    unseen-put_lt m k v xs new,
    unseen-put_le m k v xs,
    has-put m k x v,
    text_beq_iff x k,
    text_beq_iff k x,
    ap (has m),
  )

  abbrev pub left_to_do : LoopSearch → ℕ
  left_to_do s = length s.queue + unseen s.parents members

  -- From `s` to `t` while the successors `ts` of a node are scanned.
  pub record Scans (ts : List Text) (s t : LoopSearch) : Type 0 where
    pub is_search : IsSearch t
    pub grows : (x : Text) → has s.parents x ≡ true → has t.parents x ≡ true
    pub waits : (x : Text) → includes s.queue x ≡ true → includes t.queue x ≡ true
    pub covers : (x : Text) → Known t x → (Known s x) ⊎ (includes t.queue x ≡ true)
    pub takes :
        (b : Text) → includes ts b ≡ true → includes members b ≡ true → has t.parents b ≡ true
    pub less : left_to_do t ≤ left_to_do s

  put-IsSearch :
      (s : LoopSearch) (current target : Text)
      → IsSearch s
      → Known s current
      → Arc adjacency current target
      → (start == target) ≡ false
      → has s.parents target ≡ false
      → IsSearch (record { parents = put s.parents target current; queue = s.queue ++ target ∷ [] })
  put-IsSearch s current target i known arc apart new =
      let (l, path, short) = i.paths current known in
      let longer : length (put s.parents target current) ≡ suc (length s.parents) =
        ap length (put_of_new s.parents target current new)
        ∙ omega (arith, length-append s.parents ((target, current) ∷ [])) in
      let own : get (put s.parents target current) target ≡ some current =
        get-put s.parents target target current ∙ rw ((text_beq_iff target target).1 refl) refl in
      record {
        free = ground (
          arith,
          has-put s.parents target start current,
          i.free,
          apart,
          text_beq_iff start target,
          text_beq_iff target start,
        );
        arcs = λ x y e. elim (Bool-cases (target == x)) [
          | inl here ↦
              let same : current ≡ y =
                some_injective (sym (get-put s.parents target x current ∙ rw here refl) ∙ e) in
              subst (λ z. Arc adjacency y z) ((text_beq_iff target x).0 here)
                (subst (λ z. Arc adjacency z target) same arc)
          | inr there ↦ i.arcs x y (sym (get-put s.parents target x current ∙ rw there refl) ∙ e)
        ];
        paths = λ x k. elim (Bool-cases (target == x)) [
          | inl here ↦
              subst
                (λ z.
                  (m : List Text) × Up adjacency start (put s.parents target current) z m
                  × (length m ≤ suc (length (put s.parents target current))))
                ((text_beq_iff target x).0 here)
                (
                  target ∷ l,
                  up own (Up-put adjacency start path target current new),
                  omega (arith, short, longer),
                )
          | inr there ↦
              let (m, path_x, short_x) =
                i.paths x (ground (arith, k, there, has-put s.parents target x current)) in
              (m, Up-put adjacency start path_x target current new, omega (arith, short_x, longer))
        ];
        queued = λ x h. ground (
          arith,
          h,
          i.queued x,
          includes-append s.queue (target ∷ []) x,
          has-put s.parents target x current,
        );
      }

  scanned-Scans :
      (s : LoopSearch) (current target : Text)
      → IsSearch s
      → Known s current
      → Arc adjacency current target
      → (includes members target && (target == start)) ≡ false
      → Scans (target ∷ []) s (scanned members current target s)
  scanned-Scans s current target i known arc no_end =
      elim (Bool-cases (includes members target && not (has s.parents target))) [
        | inl new ↦
            let member : includes members target ≡ true = ground (arith, new) in
            let absent : has s.parents target ≡ false = ground (arith, new) in
            let apart : (start == target) ≡ false =
              ground
                (arith, no_end, member, text_beq_iff start target, text_beq_iff target start) in
            let after = has-put s.parents target in
            rw new (record {
              is_search = put-IsSearch s current target i known arc apart absent;
              grows = λ x h. ground (arith, h, after x current);
              waits = λ x h. ground (arith, h, includes-append s.queue (target ∷ []) x);
              covers = λ x k. elim (Bool-cases (target == x)) [
                | inl here ↦ inr (ground (arith, here, includes-append s.queue (target ∷ []) x))
                | inr there ↦ inl (ground (arith, k, there, after x current))
              ];
              takes = λ b h m. ground (arith, h, after b current);
              less = omega (
                arith,
                unseen-put_lt s.parents target current members absent member,
                length-append s.queue (target ∷ []),
              );
            })
        | inr old ↦ rw old (record {
          is_search = i;
          grows = λ x h. h;
          waits = λ x h. h;
          covers = λ x k. inl k;
          takes = λ b h m.
              ground (
                arith,
                h,
                m,
                old,
                text_beq_iff target b,
                ap (has s.parents),
                ap (includes members),
              );
          less = omega arith;
        })
      ]

  Scans-trans :
      (target : Text) (ts : List Text) (s m t : LoopSearch)
      → Scans (target ∷ []) s m
      → Scans ts m t
      → Scans (target ∷ ts) s t
  Scans-trans target ts s m t a b = record {
    is_search = b.is_search;
    grows = λ x h. b.grows x (a.grows x h);
    waits = λ x h. b.waits x (a.waits x h);
    covers = λ x k. elim (b.covers x k) [
      | inl early ↦ elim (a.covers x early) [
        | inl first ↦ inl first
        | inr waiting ↦ inr (b.waits x waiting)
      ]
      | inr waiting ↦ inr waiting
    ];
    takes = λ x h member. elim (Bool-cases (target == x)) [
      | inl here ↦ b.grows x (a.takes x (ground (arith, here)) member)
      | inr there ↦ b.takes x (ground (arith, h, there)) member
    ];
    less = omega (arith, a.less, b.less);
  }

  Known-grows :
      (s t : LoopSearch) (x : Text)
      → ((y : Text) → has s.parents y ≡ true → has t.parents y ≡ true)
      → Known s x
      → Known t x
  Known-grows s t x grows k = ground (arith, k, grows x)

  -- The scan of a node ends at an arc back to `start`, or with all successors known.
  abbrev pub ScanResult : Text → List Text → LoopSearch → LoopScan → Type 0
  ScanResult current ts s (goes_on t) = Scans ts s t
  ScanResult current ts s (closes t) = IsSearch t × Known t current × Arc adjacency current start

  pub scan_targets-ScanResult :
      (current : Text) (ts : List Text) (s : LoopSearch)
      → IsSearch s
      → Known s current
      → ((b : Text) → includes ts b ≡ true → Arc adjacency current b)
      → ScanResult current ts s (scan_targets members start current ts s)
  unfolding scan_targets
  scan_targets-ScanResult current [] s i known arcs = record {
    is_search = i;
    grows = λ x h. h;
    waits = λ x h. h;
    covers = λ x k. inl k;
    takes = λ b h m. cc;
    less = omega arith;
  }
  scan_targets-ScanResult current (target ∷ ts) s i known arcs =
      let arc : Arc adjacency current target =
        arcs target (ground (arith, text_beq_iff target target)) in
      elim (Bool-cases (includes members target && (target == start))) [
        | inl ends ↦
            let same : target ≡ start = (text_beq_iff target start).0 (ground (arith, ends)) in
            rw (ends, scan_targets) (i, known, subst (Arc adjacency current) same arc)
        | inr goes ↦
            let first = scanned-Scans s current target i known arc goes in
            let next : LoopSearch = scanned members current target s in
            let rest =
              scan_targets-ScanResult current ts next first.is_search
                (Known-grows s next current first.grows known)
                (λ b h. arcs b (ground (arith, h))) in
            rw (goes, scan_targets)
              (after target ts s next first (scan_targets members start current ts next) rest)
      ]
    where
      after :
          (tgt : Text) (us : List Text) (a m : LoopSearch)
          → Scans (tgt ∷ []) a m
          → (r : LoopScan) → ScanResult current us m r
          → ScanResult current (tgt ∷ us) a r
      after tgt us a m f (goes_on t) rest = Scans-trans tgt us a m t f rest
      after tgt us a m f (closes t) rest = rest
