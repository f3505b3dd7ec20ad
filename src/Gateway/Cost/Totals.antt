-- ===== src/Gateway/Cost/Totals.antt =====
-- What a service's summary adds up.
use llmops_platform.Prelude.{
  ℕ, ◌+◌, ◌≡◌, refl, ◌∙◌, ap, Str, Bool, true, false, List, [], ◌∷◌, ◌==◌, string_eq, eq_iff,
  str_eq, if◌then◌else◌, arith, filter, length, sum_by, Bool-cases, inl, inr,
}
use llmops_platform.Prelude.Dict.{lookup, lookup-insert}
use llmops_platform.Prelude.Float.{Float}
use llmops_platform.Gateway.Cost.{
  UsageRecord, svc_key, model_key, UsageHash, Redis, hash_at, change_at, count_service, count_model,
  record_usage, ServiceSummary, get_service_summary, estimate_cost,
}

module _ (fl : Float) where
  open fl use {F, add, of_ℕ}

  unfoldable pub record_all : List UsageRecord → Redis fl → Redis fl
  record_all [] s = s
  record_all (r ∷ rs) s = record_all rs ((record_usage fl r s).1)

  -- The records of one service.
  abbrev pub records_of : Str → List UsageRecord → List UsageRecord
  records_of name rs = filter (λ (r : UsageRecord). name == r.service_name) rs

  -- The costs of the records, added up in their order.
  abbrev pub cost_from : F → List UsageRecord → F
  cost_from c [] = c
  cost_from c (r ∷ rs) =
      cost_from (add c (estimate_cost fl r.model r.input_tokens r.output_tokens)) rs

  same_key : (a b : Str) → (svc_key a == svc_key b) ≡ (a == b)
  unfolding str_eq
  same_key a b = refl

  abbrev totals : UsageHash fl → F × ℕ × ℕ × ℕ
  totals h = (h.total_cost, h.total_input_tokens, h.total_output_tokens, h.total_requests)

  hash_at-change_at :
      (k j : Str) (f : UsageHash fl → UsageHash fl) (s : Redis fl)
      → hash_at fl k (change_at fl j f s) ≡ (if k == j then f (hash_at fl k s) else hash_at fl k s)
  hash_at-change_at k j f s = ground (arith, lookup-insert j k (f (hash_at fl j s)) s, eq_iff k j)

  -- A model's key may be the key of a service with a colon; its totals stay as they are.
  totals-count_model :
      (k j : Str) (r : UsageRecord) (s : Redis fl)
      → totals (hash_at fl k (change_at fl j (count_model fl r) s)) ≡ totals (hash_at fl k s)
  totals-count_model k j r s =
      ap totals (hash_at-change_at k j (count_model fl r) s)
      ∙ elim (Bool-cases (k == j)) [ inl e ↦ rw e | inr e ↦ rw e ]

  totals-record :
      (name : Str) (r : UsageRecord) (s : Redis fl)
      → let key = svc_key name in
        totals (hash_at fl key ((record_usage fl r s).1)) ≡ (
          if name == r.service_name
          then totals (count_service fl r (hash_at fl key s))
          else totals (hash_at fl key s))
  unfolding record_usage
  totals-record name r s =
      totals-count_model (svc_key name) (model_key r.service_name r.model) r
        (change_at fl (svc_key r.service_name) (count_service fl r) s)
      ∙ ap totals (hash_at-change_at (svc_key name) (svc_key r.service_name) (count_service fl r) s)
      ∙ by_key (name == r.service_name) (same_key name r.service_name)
    where
      by_key :
          (b : Bool)
          → (svc_key name == svc_key r.service_name) ≡ b
          → totals (
              if svc_key name == svc_key r.service_name
              then count_service fl r (hash_at fl (svc_key name) s)
              else hash_at fl (svc_key name) s)
            ≡ (if b
                then totals (count_service fl r (hash_at fl (svc_key name) s))
                else totals (hash_at fl (svc_key name) s))
      by_key true e = rw e
      by_key false e = rw e

  abbrev summary_of : Str → F × ℕ × ℕ × ℕ → List UsageRecord → ServiceSummary fl
  summary_of name (c, i, o, n) rs = record {
    service = name;
    total_cost = cost_from c rs;
    total_input_tokens = i + sum_by (λ (r : UsageRecord). r.input_tokens) rs;
    total_output_tokens = o + sum_by (λ (r : UsageRecord). r.output_tokens) rs;
    total_requests = n + length rs;
  }

  summary-step :
      (name : Str) (r : UsageRecord) (rs : List UsageRecord) (h : UsageHash fl)
      → summary_of name
          (if name == r.service_name then totals (count_service fl r h) else totals h)
          (records_of name rs)
        ≡ summary_of name (totals h) (records_of name (r ∷ rs))
  summary-step name r rs h = elim (Bool-cases (name == r.service_name)) [
    | inl e ↦ ground arith
    | inr e ↦ ground arith
  ]

  record_all-summary_from :
      (name : Str) (rs : List UsageRecord) (s : Redis fl)
      → get_service_summary fl (record_all rs s) name
        ≡ summary_of name (totals (hash_at fl (svc_key name) s)) (records_of name rs)
  unfolding get_service_summary record_all
  record_all-summary_from name [] s = ground arith
  record_all-summary_from name (r ∷ rs) s =
      record_all-summary_from name rs ((record_usage fl r s).1)
      ∙ ap (λ t. summary_of name t (records_of name rs)) (totals-record name r s)
      ∙ summary-step name r rs (hash_at fl (svc_key name) s)

  -- After any calls of `record`, from empty hashes, the summary of a service has the number of its
  -- records, the sums of their tokens and the sum of their costs, added up in their order. Neither
  -- the records of other services nor the hashes that are kept for models show in it, also where
  -- the keys of the two kinds coincide.
  pub record_all-get_service_summary :
      (name : Str) (rs : List UsageRecord)
      → get_service_summary fl (record_all rs []) name ≡ record {
        service = name;
        total_cost = cost_from (of_ℕ 0) (records_of name rs);
        total_input_tokens = sum_by (λ (r : UsageRecord). r.input_tokens) (records_of name rs);
        total_output_tokens = sum_by (λ (r : UsageRecord). r.output_tokens) (records_of name rs);
        total_requests = length (records_of name rs);
      }
  unfolding lookup
  record_all-get_service_summary name rs = record_all-summary_from name rs [] ∙ ground arith
