-- ===== src/Middleware/Strings.antt =====
-- Methods of Python's `str`: `strip`, `split` at one character, `removeprefix`.
use llmops_platform.Prelude.{
  ℕ, ◌≡◌, refl, ap, ◌∙◌, Str, Bool, true, ◌&&◌, ◌||◌, not, List, [], ◌∷◌, ◌++◌, arith, leb, nat_beq,
  if◌then◌else◌, is_empty, Bool-cases, inl, inr,
}

-- The characters that `str.strip()` removes.
unfoldable pub is_space : ℕ → Bool
is_space c =
    leb 9 c && leb c 13
    || (leb 28 c && leb c 32
        || (nat_beq c 0x85
            || (nat_beq c 0xa0
                || (nat_beq c 0x1680
                    || (leb 0x2000 c && leb c 0x200a
                        || (leb 0x2028 c && leb c 0x2029
                            || (nat_beq c 0x202f || (nat_beq c 0x205f || nat_beq c 0x3000))))))))

-- Stripping, of the characters that a test tells.
module _ (drops : ℕ → Bool) where
  unfoldable pub lstrip_by : Str → Str
  lstrip_by [] = []
  lstrip_by (c ∷ s) = if drops c then lstrip_by s else c ∷ s

  unfoldable pub rstrip_by : Str → Str
  rstrip_by [] = []
  rstrip_by (c ∷ s) = let r = rstrip_by s in if is_empty r && drops c then [] else c ∷ r

  unfoldable pub strip_by : Str → Str
  unfolding lstrip_by rstrip_by
  strip_by s = rstrip_by (lstrip_by s)

  -- A text that `lstrip_by` leaves alone.
  abbrev pub starts_clean : Str → Bool
  starts_clean [] = true
  starts_clean (c ∷ s) = not (drops c)

  pub lstrip_by-clean : (s : Str) → starts_clean (lstrip_by s) ≡ true
  unfolding lstrip_by
  lstrip_by-clean [] = refl
  lstrip_by-clean (c ∷ s) = ground (arith, lstrip_by-clean s)

  pub lstrip_by-of_clean : (s : Str) → starts_clean s ≡ true → lstrip_by s ≡ s
  unfolding lstrip_by
  lstrip_by-of_clean [] h = refl
  lstrip_by-of_clean (c ∷ s) h = ground arith

  pub rstrip_by-clean : (s : Str) → starts_clean s ≡ true → starts_clean (rstrip_by s) ≡ true
  unfolding rstrip_by
  rstrip_by-clean [] h = refl
  rstrip_by-clean (c ∷ s) h = ground arith

  pub rstrip_by_idem : (s : Str) → rstrip_by (rstrip_by s) ≡ rstrip_by s
  unfolding rstrip_by
  rstrip_by_idem [] = refl
  rstrip_by_idem (c ∷ s) = elim (Bool-cases (is_empty (rstrip_by s) && drops c)) [
    | inl e ↦ rw e
    | inr e ↦ rw e (ground (arith, rstrip_by_idem s))
  ]

  -- Stripping twice is stripping once.
  pub strip_by_idem : (s : Str) → strip_by (strip_by s) ≡ strip_by s
  unfolding strip_by
  strip_by_idem s =
      ap rstrip_by (
        lstrip_by-of_clean (rstrip_by (lstrip_by s))
          (rstrip_by-clean (lstrip_by s) (lstrip_by-clean s)))
      ∙ rstrip_by_idem (lstrip_by s)

-- `s.strip()`
unfoldable pub strip : Str → Str
unfolding strip_by is_space
strip s = strip_by is_space s

unfoldable pub cons_head : ℕ → List Str → List Str
cons_head c [] = (c ∷ []) ∷ []
cons_head c (s ∷ ss) = (c ∷ s) ∷ ss

-- `s.split(sep)` for one character
unfoldable pub split : ℕ → Str → List Str
unfolding cons_head
split sep [] = [] ∷ []
split sep (c ∷ s) = if nat_beq c sep then [] ∷ split sep s else cons_head c (split sep s)

drop_prefix : Str → Str → Str → Str
drop_prefix whole s [] = s
drop_prefix whole [] (b ∷ p) = whole
drop_prefix whole (a ∷ s) (b ∷ p) = if nat_beq a b then drop_prefix whole s p else whole

-- `s.removeprefix(p)`
unfoldable pub removeprefix : Str → Str → Str
unfolding drop_prefix
removeprefix s p = drop_prefix s s p

pub strip_idem : (s : Str) → strip (strip s) ≡ strip s
unfolding strip
strip_idem s = strip_by_idem is_space s

drop_prefix-append : (whole p s : Str) → drop_prefix whole (p ++ s) p ≡ s
unfolding drop_prefix
drop_prefix-append whole [] [] = refl
drop_prefix-append whole [] (c ∷ s) = refl
drop_prefix-append whole (a ∷ p) s = ground (arith, drop_prefix-append whole p s)

pub removeprefix-append : (p s : Str) → removeprefix (p ++ s) p ≡ s
unfolding removeprefix
removeprefix-append p s = drop_prefix-append (p ++ s) p s
