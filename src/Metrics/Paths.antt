-- ===== src/Metrics/Paths.antt =====
-- What the labels of paths look like.
use llmops_platform.Prelude.{
  ℕ, ◌≡◌, refl, sym, ap, ap₂, subst, ◌∙◌, ◌⊎◌, inl, inr, Str, Bool, true, false, ◌&&◌, not, List,
  [], ◌∷◌, ◌++◌, is_empty, arith, map, All, Bool-cases,
}
use llmops_platform.Middleware.Strings.{
  split, cons_head, strip_by, lstrip_by, rstrip_by, starts_clean, lstrip_by-of_clean,
  rstrip_by-clean, lstrip_by-clean, rstrip_by_idem,
}
use llmops_platform.Metrics.{
  is_slash, segments, join, is_id, placeholder, normalize_part, normalize_path,
}

-- A segment has no slash.
abbrev no_slash : Str → Bool
no_slash [] = true
no_slash (c ∷ s) = not (is_slash c) && no_slash s

abbrev AreSegments : List Str → Type 0
AreSegments ps = All (λ p. no_slash p ≡ true) ps

abbrev last_full : List Str → Bool
last_full [] = false
last_full (p ∷ []) = not (is_empty p)
last_full (p ∷ q ∷ ps) = last_full (q ∷ ps)

abbrev first_full : List Str → Bool
first_full [] = false
first_full (p ∷ ps) = not (is_empty p)

cons_head-segments :
    (c : ℕ) (ps : List Str) → is_slash c ≡ false → AreSegments ps → AreSegments (cons_head c ps)
unfolding cons_head
cons_head-segments c [] e h = (ground arith, tt)
cons_head-segments c (p ∷ ps) e h = (ground (arith, h.0), h.1)

split-segments : (s : Str) → AreSegments (split b'/' s)
unfolding split
split-segments [] = (refl, tt)
split-segments (c ∷ s) = elim (Bool-cases (is_slash c)) [
  | inl e ↦ rw e (refl, split-segments s)
  | inr e ↦ rw e (cons_head-segments c (split b'/' s) e (split-segments s))
]

split-first_full : (c : ℕ) (s : Str) → is_slash c ≡ false → first_full (split b'/' (c ∷ s)) ≡ true
unfolding split cons_head
split-first_full c s e = rw e (at (split b'/' s))
  where
    at : (ps : List Str) → first_full (cons_head c ps) ≡ true
    at [] = refl
    at (p ∷ ps) = refl

cons-last_full : (p : Str) (ps : List Str) → last_full ps ≡ true → last_full (p ∷ ps) ≡ true
cons-last_full p [] h = absurd (cc)
cons-last_full p (q ∷ ps) h = h

cons_head-last_full :
    (c : ℕ) (ps : List Str) → last_full ps ≡ true → last_full (cons_head c ps) ≡ true
unfolding cons_head
cons_head-last_full c [] h = refl
cons_head-last_full c (p ∷ []) h = refl
cons_head-last_full c (p ∷ q ∷ ps) h = h

rstrip-tail : (c : ℕ) (s : Str) → rstrip_by is_slash (c ∷ s) ≡ c ∷ s → rstrip_by is_slash s ≡ s
unfolding rstrip_by
rstrip-tail c s h = ground arith

split-last_full :
    (c : ℕ) (s : Str) → rstrip_by is_slash (c ∷ s) ≡ c ∷ s → last_full (split b'/' (c ∷ s)) ≡ true
unfolding split cons_head rstrip_by
split-last_full c [] h = ground arith
split-last_full c (d ∷ s) h =
    let rest : rstrip_by is_slash (d ∷ s) ≡ d ∷ s = rstrip-tail c (d ∷ s) h in
    let full = split-last_full d s rest in
    elim (Bool-cases (is_slash c)) [
      | inl e ↦ rw e (cons-last_full [] (split b'/' (d ∷ s)) full)
      | inr e ↦ rw e (cons_head-last_full c (split b'/' (d ∷ s)) full)
    ]

-- The segments of a stripped path: a single empty one, or the first and the last are not empty.
abbrev AreParts : List Str → Type 0
AreParts ps = AreSegments ps × ((ps ≡ [] ∷ []) ⊎ ((first_full ps ≡ true) × (last_full ps ≡ true)))

split-AreParts :
    (s : Str) → starts_clean is_slash s ≡ true → rstrip_by is_slash s ≡ s → AreParts (split b'/' s)
unfolding split
split-AreParts [] a b = ((refl, tt), inl refl)
split-AreParts (c ∷ s) a b =
    (split-segments (c ∷ s), inr (split-first_full c s (ground arith), split-last_full c s b))

strip-AreParts : (s : Str) → AreParts (split b'/' (strip_by is_slash s))
unfolding strip_by
strip-AreParts s =
    split-AreParts (rstrip_by is_slash (lstrip_by is_slash s))
      (rstrip_by-clean is_slash (lstrip_by is_slash s) (lstrip_by-clean is_slash s))
      (rstrip_by_idem is_slash (lstrip_by is_slash s))

split-of_segment : (p : Str) → no_slash p ≡ true → split b'/' p ≡ p ∷ []
unfolding split cons_head
split-of_segment [] h = refl
split-of_segment (c ∷ p) h = ground (arith, split-of_segment p)

split-append : (p s : Str) → no_slash p ≡ true → split b'/' (p ++ b'/' ∷ s) ≡ p ∷ split b'/' s
unfolding split cons_head
split-append [] s h = refl
split-append (c ∷ p) s h = ground (arith, split-append p s)

split-join :
    (p : Str) (ps : List Str) → AreSegments (p ∷ ps) → split b'/' (join b'/' (p ∷ ps)) ≡ p ∷ ps
unfolding join
split-join p [] h = split-of_segment p h.0
split-join p (q ∷ ps) h =
    split-append p (join b'/' (q ∷ ps)) h.0 ∙ ap (λ qs. p ∷ qs) (split-join q ps h.1)

rstrip-segment : (p : Str) → no_slash p ≡ true → rstrip_by is_slash p ≡ p
unfolding rstrip_by
rstrip-segment [] h = refl
rstrip-segment (c ∷ p) h = ground (arith, rstrip-segment p)

rstrip-append :
    (p s : Str)
    → is_empty s ≡ false
    → rstrip_by is_slash s ≡ s
    → (rstrip_by is_slash (p ++ s) ≡ p ++ s) × (is_empty (p ++ s) ≡ false)
unfolding rstrip_by
rstrip-append [] s full h = (h, full)
rstrip-append (c ∷ p) s full h =
    let (rest, some_rest) = rstrip-append p s full h in (ground arith, refl)

rstrip-join :
    (p : Str) (ps : List Str)
    → AreSegments (p ∷ ps)
    → last_full (p ∷ ps) ≡ true
    → (rstrip_by is_slash (join b'/' (p ∷ ps)) ≡ join b'/' (p ∷ ps))
      × (is_empty (join b'/' (p ∷ ps)) ≡ false)
unfolding join
rstrip-join p [] h full = (rstrip-segment p h.0, ground arith)
rstrip-join p (q ∷ ps) h full =
    let (rest, some_rest) = rstrip-join q ps h.1 full in
    let slashed : rstrip_by is_slash (b'/' ∷ join b'/' (q ∷ ps)) ≡ b'/' ∷ join b'/' (q ∷ ps) =
      (rstrip-append (b'/' ∷ []) (join b'/' (q ∷ ps)) some_rest rest).0 in
    rstrip-append p (b'/' ∷ join b'/' (q ∷ ps)) refl slashed

join-starts :
    (ps : List Str)
    → AreSegments ps
    → first_full ps ≡ true
    → starts_clean is_slash (join b'/' ps) ≡ true
unfolding join
join-starts [] h f = refl
join-starts ([] ∷ ps) h f = absurd (ground arith)
join-starts ((c ∷ p) ∷ []) h f = ground (arith, h.0)
join-starts ((c ∷ p) ∷ q ∷ ps) h f = ground (arith, h.0)

-- The segments come back from the path that is joined of them.
parts-join :
    (ps : List Str) → AreParts ps → split b'/' (strip_by is_slash (b'/' ∷ join b'/' ps)) ≡ ps
unfolding strip_by lstrip_by join split
parts-join ps (h, inl e) = rw e refl
parts-join [] (h, inr (f, l)) = absurd (cc)
parts-join (p ∷ ps) (h, inr (f, l)) =
    let starts = join-starts (p ∷ ps) h f in
    let whole = lstrip_by-of_clean is_slash (join b'/' (p ∷ ps)) starts in
    ap (λ t. split b'/' (rstrip_by is_slash t)) whole
    ∙ ap (split b'/') (rstrip-join p ps h l).0
    ∙ split-join p ps h

module _ (is_digit : ℕ → Bool) (brace : is_digit b'{' ≡ false) where
  placeholder-not_id : is_id is_digit placeholder ≡ false
  unfolding is_id
  placeholder-not_id = rw brace refl

  normalize_part-not_id : (p : Str) → is_id is_digit (normalize_part is_digit p) ≡ false
  unfolding normalize_part
  normalize_part-not_id p = ground (arith, placeholder-not_id)

  normalize_part_idem :
      (p : Str) → normalize_part is_digit (normalize_part is_digit p) ≡ normalize_part is_digit p
  unfolding normalize_part
  normalize_part_idem p = ground (arith, placeholder-not_id)

  normalize_part-empty : (p : Str) → is_empty (normalize_part is_digit p) ≡ is_empty p
  unfolding normalize_part is_id
  normalize_part-empty [] = refl
  normalize_part-empty (c ∷ p) = ground arith

  normalize_part-no_slash :
      (p : Str) → no_slash p ≡ true → no_slash (normalize_part is_digit p) ≡ true
  unfolding normalize_part
  normalize_part-no_slash p h = ground arith

  map-segments : (ps : List Str) → AreSegments ps → AreSegments (map (normalize_part is_digit) ps)
  map-segments [] h = tt
  map-segments (p ∷ ps) h = (normalize_part-no_slash p h.0, map-segments ps h.1)

  map-first_full : (ps : List Str) → first_full (map (normalize_part is_digit) ps) ≡ first_full ps
  map-first_full [] = refl
  map-first_full (p ∷ ps) = ap not (normalize_part-empty p)

  map-last_full : (ps : List Str) → last_full (map (normalize_part is_digit) ps) ≡ last_full ps
  map-last_full [] = refl
  map-last_full (p ∷ []) = ap not (normalize_part-empty p)
  map-last_full (p ∷ q ∷ ps) = map-last_full (q ∷ ps)

  map-AreParts : (ps : List Str) → AreParts ps → AreParts (map (normalize_part is_digit) ps)
  unfolding normalize_part is_id
  map-AreParts ps (h, inl e) = (map-segments ps h, inl (rw e refl))
  map-AreParts ps (h, inr (f, l)) =
      (map-segments ps h, inr (map-first_full ps ∙ f, map-last_full ps ∙ l))

  map-not_id :
      (ps : List Str) → All (λ p. is_id is_digit p ≡ false) (map (normalize_part is_digit) ps)
  map-not_id [] = tt
  map-not_id (p ∷ ps) = (normalize_part-not_id p, map-not_id ps)

  map_idem :
      (ps : List Str)
      → map (normalize_part is_digit) (map (normalize_part is_digit) ps)
        ≡ map (normalize_part is_digit) ps
  map_idem [] = refl
  map_idem (p ∷ ps) = ap₂ (λ q qs. q ∷ qs) (normalize_part_idem p) (map_idem ps)

  -- The segments of a path's label are those of the path in their order, each that is an id replaced
  -- by the placeholder; none of them is an id any more, and the label of a label is the label itself.
  -- An opening brace is assumed to be no digit.
  pub normalize_path-segments :
      (path : Str)
      → (segments (normalize_path is_digit path) ≡ map (normalize_part is_digit) (segments path))
        × All (λ p. is_id is_digit p ≡ false) (segments (normalize_path is_digit path))
        × (normalize_path is_digit (normalize_path is_digit path) ≡ normalize_path is_digit path)
  unfolding normalize_path
  normalize_path-segments path =
      let ps = split b'/' (strip_by is_slash path) in
      let back =
        parts-join (map (normalize_part is_digit) ps) (map-AreParts ps (strip-AreParts path)) in
      (
        back,
        subst (All (λ p. is_id is_digit p ≡ false)) (sym back) (map-not_id ps),
        ap (λ qs. b'/' ∷ join b'/' (map (normalize_part is_digit) qs)) back
            ∙ ap (λ qs. b'/' ∷ join b'/' qs) (map_idem ps),
      )
