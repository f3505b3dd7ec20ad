-- ===== src/Gateway/Langfuse/Pages.antt =====
-- The loop that reads the pages of observations.
use llmops_platform.Prelude.{
  ℕ, zero, suc, ◌≤◌, ◌≡◌, Str, Option, none, some, List, [], ◌∷◌, ◌++◌, arith, append_assoc,
  append-nil, length, Result, ok,
}
use llmops_platform.Prelude.Float.{Float}
use llmops_platform.Gateway.Langfuse.{
  Observation, Page, next_of, query_pages, aggregate, or_failed, get_summary,
}

module _ (fl : Float) (get_many : Option Str → Result (Page fl)) where
  -- The pages from a cursor on, up to one that has no further cursor.
  pub data Pages : Option Str → List (List (Observation fl)) → Type 0 where
    last :
        {c : Option Str} {p : Page fl}
        → get_many c ≡ ok p
        → next_of fl get_many p ≡ none
        → Pages c (p.observations ∷ [])
    more :
        {c : Option Str} {p : Page fl} {d : Str} {rest : List (List (Observation fl))}
        → get_many c ≡ ok p
        → next_of fl get_many p ≡ some d
        → Pages (some d) rest
        → Pages c (p.observations ∷ rest)

  abbrev pub concat : List (List (Observation fl)) → List (Observation fl)
  concat [] = []
  concat (os ∷ oss) = os ++ concat oss

  query_pages-Pages :
      (fuel : ℕ) (cursor : Option Str) (acc : List (Observation fl))
      (oss : List (List (Observation fl)))
      → Pages cursor oss
      → length oss ≤ fuel
      → query_pages fl get_many fuel cursor acc ≡ some (ok (acc ++ concat oss))
  unfolding query_pages
  query_pages-Pages zero cursor acc _ (last a b) h = absurd (omega arith)
  query_pages-Pages zero cursor acc _ (more a b r) h = absurd (omega arith)
  query_pages-Pages (suc n) cursor acc _ (last {p = p} a b) h =
      ground (arith, append-nil p.observations)
  query_pages-Pages (suc n) cursor acc _ (more {p = p} {d = d} {rest = rest} a b r) h = ground (
    arith,
    query_pages-Pages n (some d) (acc ++ p.observations) rest r (omega arith),
    append_assoc acc p.observations (concat rest),
  )

  -- Where the pages come to an end, the loop does too: any fuel that is not below their number is
  -- enough, and the report is made of the observations of all pages, in their order.
  pub get_summary-Pages :
      (oss : List (List (Observation fl))) (fuel : ℕ) (service_name : Option Str)
      → Pages none oss
      → length oss ≤ fuel
      → get_summary fl get_many fuel service_name
        ≡ some (or_failed fl get_many (aggregate fl (concat oss) service_name))
  unfolding get_summary
  get_summary-Pages oss fuel service_name pages h =
      ground (arith, query_pages-Pages fuel none [] oss pages h)
