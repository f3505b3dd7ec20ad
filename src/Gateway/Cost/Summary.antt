-- ===== src/Gateway/Cost/Summary.antt =====
-- Which services the summary of all services lists.
use llmops_platform.Prelude.{
  ℕ, ◌≡◌, refl, sym, ap, ◌∙◌, inl, inr, Str, codes, Bool, true, false, Option, none, some, List, [],
  ◌∷◌, string_eq, eq_iff, if◌then◌else◌, arith, filter, starts_with, In, In-filter, nat_eq, All,
  nat_beq, Bool-cases, Option-cases,
}
use llmops_platform.Prelude.Dict.{Dict, lookup, insert, lookup-insert, lookup-insert_self}
use llmops_platform.Prelude.Float.{Float}
use llmops_platform.Middleware.Strings.{split, cons_head}
use llmops_platform.Gateway.Cost.{
  prefix, svc_key, Redis, ServiceSummary, get_service_summary, add_service, add_parts,
  collect_services, of_services, all_services, get_summary,
}

-- `":" in s`
abbrev pub has_colon : Str → Bool
has_colon [] = false
has_colon (c ∷ s) = if nat_beq c b':' then true else has_colon s

split-no_colon : (s : Str) → has_colon s ≡ false → split b':' s ≡ s ∷ []
unfolding split cons_head
split-no_colon [] h = refl
split-no_colon (c ∷ s) h = ground (arith, split-no_colon s)

AreFree : List Str → Type 0
AreFree ss = All (λ s. has_colon s ≡ false) ss

split-AreFree : (s : Str) → AreFree (split b':' s)
unfolding split AreFree
split-AreFree [] = (refl, tt)
split-AreFree (c ∷ s) = elim (Bool-cases (nat_beq c b':')) [
  | inl e ↦ rw e (refl, split-AreFree s)
  | inr e ↦ rw e (cons_free c e (split b':' s) (split-AreFree s))
]
  where
    cons_free :
        (c : ℕ) → nat_beq c b':' ≡ false → (ss : List Str) → AreFree ss → AreFree (cons_head c ss)
    cons_free c e [] h = (rw e, tt)
    cons_free c e (t ∷ ss) h = (rw e h.0, h.1)

split-svc_key :
    (s : Str)
    → has_colon s ≡ false
    → split b':' (svc_key s) ≡ codes "llmops" ∷ codes "usage" ∷ s ∷ []
unfolding split cons_head
split-svc_key s h = rw (split-no_colon s h)

module _ (fl : Float) where
  -- Every entry is the summary of its service, and no service has a colon in its name.
  abbrev IsRight : Redis fl → Dict Str (ServiceSummary fl) → Type 0
  IsRight s d =
      (name : Str) (v : ServiceSummary fl)
      → lookup name d ≡ some v
      → (v ≡ get_service_summary fl s name) × (has_colon name ≡ false)

  add_service-IsRight :
      (s : Redis fl) (svc : Str) (o : Option (ServiceSummary fl)) (d : Dict Str (ServiceSummary fl))
      → has_colon svc ≡ false
      → IsRight s d
      → IsRight s (add_service fl s svc o d)
  unfolding add_service
  add_service-IsRight s svc (some w) d free right = right
  add_service-IsRight s svc none d free right = λ name v h. ground (
    arith,
    lookup-insert svc name (get_service_summary fl s svc) d,
    eq_iff name svc,
    right name v,
  )

  add_parts-IsRight :
      (s : Redis fl) (parts : List Str) (d : Dict Str (ServiceSummary fl))
      → AreFree parts
      → IsRight s d
      → IsRight s (add_parts fl s parts d)
  unfolding add_parts AreFree
  add_parts-IsRight s [] d free right = right
  add_parts-IsRight s (a ∷ []) d free right = right
  add_parts-IsRight s (a ∷ b ∷ []) d free right = right
  add_parts-IsRight s (a ∷ b ∷ svc ∷ []) d free right =
      add_service-IsRight s svc (lookup svc d) d free.1.1.0 right
  add_parts-IsRight s (a ∷ b ∷ svc ∷ e ∷ r) d free right = right

  collect_services-IsRight :
      (s : Redis fl) (keys : List Str) (d : Dict Str (ServiceSummary fl))
      → IsRight s d
      → IsRight s (collect_services fl s keys d)
  unfolding collect_services
  collect_services-IsRight s [] d right = right
  collect_services-IsRight s (key ∷ keys) d right =
      collect_services-IsRight s keys (add_parts fl s (split b':' key) d)
        (add_parts-IsRight s (split b':' key) d (split-AreFree key) right)

  -- `name` has an entry.
  abbrev IsListed : Str → Dict Str (ServiceSummary fl) → Type 0
  IsListed name d = (v : ServiceSummary fl) × (lookup name d ≡ some v)

  add_service-IsListed :
      (s : Redis fl) (svc name : Str) (d : Dict Str (ServiceSummary fl))
      → IsListed name d
      → IsListed name (add_service fl s svc (lookup svc d) d)
  unfolding add_service
  add_service-IsListed s svc name d (v, h) = elim (Option-cases (lookup svc d)) [
    | inr (w, e) ↦ rw e (v, h)
    | inl e ↦
        let other : lookup name (insert svc (get_service_summary fl s svc) d) ≡ some v =
          ground
            (arith, lookup-insert svc name (get_service_summary fl s svc) d, eq_iff name svc) in
        rw e (v, other)
  ]

  add_parts-IsListed :
      (s : Redis fl) (parts : List Str) (name : Str) (d : Dict Str (ServiceSummary fl))
      → IsListed name d
      → IsListed name (add_parts fl s parts d)
  unfolding add_parts
  add_parts-IsListed s [] name d h = h
  add_parts-IsListed s (a ∷ []) name d h = h
  add_parts-IsListed s (a ∷ b ∷ []) name d h = h
  add_parts-IsListed s (a ∷ b ∷ svc ∷ []) name d h = add_service-IsListed s svc name d h
  add_parts-IsListed s (a ∷ b ∷ svc ∷ e ∷ r) name d h = h

  collect_services-IsListed :
      (s : Redis fl) (keys : List Str) (name : Str) (d : Dict Str (ServiceSummary fl))
      → IsListed name d
      → IsListed name (collect_services fl s keys d)
  unfolding collect_services
  collect_services-IsListed s [] name d h = h
  collect_services-IsListed s (key ∷ keys) name d h =
      collect_services-IsListed s keys name (add_parts fl s (split b':' key) d)
        (add_parts-IsListed s (split b':' key) name d h)

  add_self :
      (s : Redis fl) (name : Str) (d : Dict Str (ServiceSummary fl))
      → IsListed name (add_service fl s name (lookup name d) d)
  unfolding add_service
  add_self s name d = elim (Option-cases (lookup name d)) [
    | inr (w, e) ↦ rw e (w, e)
    | inl e ↦
        rw e
          (get_service_summary fl s name, lookup-insert_self name (get_service_summary fl s name) d)
  ]

  collect_services-In :
      (s : Redis fl) (keys : List Str) (name : Str) (d : Dict Str (ServiceSummary fl))
      → has_colon name ≡ false
      → In (svc_key name) keys
      → IsListed name (collect_services fl s keys d)
  unfolding collect_services add_parts
  collect_services-In s [] name d free m = elim m [ ]
  collect_services-In s (key ∷ keys) name d free (inl e) =
      let parts : split b':' key ≡ codes "llmops" ∷ codes "usage" ∷ name ∷ [] =
        ap (split b':') (sym e) ∙ split-svc_key name free in
      collect_services-IsListed s keys name (add_parts fl s (split b':' key) d)
        (rw parts (add_self s name d))
  collect_services-In s (key ∷ keys) name d free (inr m) =
      collect_services-In s keys name (add_parts fl s (split b':' key) d) free m

  -- The summary of all services gives, for every service whose key the scan has met and whose name
  -- has no colon, exactly the summary that is given for that service alone; a service with a colon
  -- in its name is never listed, whatever it has used. The order of the scan and keys that it gives
  -- twice do not matter.
  pub get_summary-lists :
      (s : Redis fl) (scanned : List Str)
      → (d : Dict Str (ServiceSummary fl)) × (get_summary fl s scanned none ≡ of_services d)
        × ((name : Str)
            → In (svc_key name) scanned
            → has_colon name ≡ false
            → lookup name d ≡ some (get_service_summary fl s name))
        × ((name : Str) → has_colon name ≡ true → lookup name d ≡ none)
  unfolding get_summary all_services starts_with lookup
  get_summary-lists s scanned =
      let keys = filter (λ k. starts_with k prefix) scanned in
      let d = collect_services fl s keys [] in
      let right : IsRight s d = collect_services-IsRight s keys [] (λ name v h. absurd (cc)) in
      (
        d,
        refl,
        λ name m free.
            let (v, e) =
              collect_services-In s keys name [] free
                (In-filter (λ k. starts_with k prefix) (svc_key name) scanned m refl) in
            e ∙ ap some (right name v e).0,
        λ name colon. elim (Option-cases (lookup name d)) [
          | inl e ↦ e
          | inr (v, e) ↦ let free = (right name v e).1 in absurd (cc)
        ],
      )
