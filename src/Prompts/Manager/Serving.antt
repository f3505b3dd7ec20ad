-- ===== src/Prompts/Manager/Serving.antt =====
-- What `get` serves after a prompt is created and after a version is promoted.
use llmops_platform.Prelude.{
  ℕ, ◌≤◌, max, ◌≡◌, refl, sym, ap, ◌∙◌, inl, inr, Str, Bool, true, false, ◌&&◌, none, some, List,
  [], ◌∷◌, arith, ok, ◌==◌, nat_eq, string_eq, find-some, In, In-filter, filter-In, is_empty, leb,
}
use llmops_platform.Prelude.Sort.{top_nat-greatest, top-In, top-some}
use llmops_platform.Prelude.Table.{update, find-update_self, update-In, In-update}
use llmops_platform.Prelude.Tx.{after}
use llmops_platform.Prompts.Base.{
  PromptEnvironment, draft, staging, production, same_env, PromptModel, PromptVersionModel,
  PromptDb, env_of,
}
use llmops_platform.Prompts.Manager.{
  promote, get, find_version, in_env, latest, max_version, version_of, version_id_of, moved_to,
  version_to_dict,
}
use llmops_platform.Prompts.Manager.Versions.{find_prompt, max_version-ge}

same_env_self : (e : PromptEnvironment) → same_env e e ≡ true
same_env_self draft = refl
same_env_self staging = refl
same_env_self production = refl

-- The greatest number is a bound, and the least one.
max_version-le :
    (rows : List PromptVersionModel) (n : ℕ)
    → ((v : PromptVersionModel) → In v rows → v.version ≤ n)
    → max_version rows ≤ n
unfolding max_version
max_version-le [] n h = omega arith
max_version-le (r ∷ rows) n h =
    omega (arith, h r (inl refl), max_version-le rows n (λ v m. h v (inr m)))

abbrev promoted : ℕ → PromptEnvironment → PromptDb → PromptDb
promoted id env db = record db { versions = update version_id_of id (moved_to env) db.versions }

promote_done :
    (name : Str) (n : ℕ) (target_env : Str) (db : PromptDb) (p : PromptModel)
    (env : PromptEnvironment) (pv : PromptVersionModel)
    → find_prompt name db.prompts ≡ some p
    → env_of target_env ≡ ok env
    → find_version p.id n db.versions ≡ some pv
    → after (promote name n target_env) db ≡ promoted pv.id env db
unfolding promote
promote_done name n target_env db p env pv found good there = ground arith

get-in_env :
    (name target_env : Str) (db : PromptDb) (p : PromptModel) (env : PromptEnvironment)
    (w : PromptVersionModel)
    → find_prompt name db.prompts ≡ some p
    → env_of target_env ≡ ok env
    → is_empty target_env ≡ false
    → latest (in_env p.id env db.versions) ≡ some w
    → get name none (some target_env) db ≡ ok (version_to_dict w, db)
unfolding get
get-in_env name target_env db p env w found good full top = ground arith

module _ (pid n : ℕ) (env : PromptEnvironment) (rows : List PromptVersionModel)
    (pv : PromptVersionModel) (there : find_version pid n rows ≡ some pv)
    (primary : (u : PromptVersionModel) → In u rows → u.id ≡ pv.id → u ≡ pv) where
  abbrev rows' : List PromptVersionModel
  rows' = update version_id_of pv.id (moved_to env) rows

  abbrev served : PromptVersionModel → Bool
  served v = v.prompt_id == pid && same_env v.environment env

  pv-is : (pv.prompt_id ≡ pid) × (pv.version ≡ n) × In pv rows
  pv-is =
      let (t, m) =
        find-some (λ (v : PromptVersionModel). v.prompt_id == pid && v.version == n) rows pv
          there in
      (ground arith, ground arith, m)

  moved-In : In (moved_to env pv) (in_env pid env rows')
  moved-In =
      let (own, num, m) = pv-is in
      let (_, at) =
        find-some (λ (v : PromptVersionModel). v.prompt_id == pid && v.version == n) rows'
          (moved_to env pv)
          (find-update_self version_id_of
            (λ (v : PromptVersionModel). v.prompt_id == pid && v.version == n) pv.id (moved_to env)
            rows pv (λ r. refl) there refl) in
      In-filter served (moved_to env pv) rows' at (ground (arith, same_env_self env))

  old-kept :
      (u : PromptVersionModel)
      → In u (in_env pid env rows)
      → (u' : PromptVersionModel) × In u' (in_env pid env rows') × (u'.version ≡ u.version)
  old-kept u k =
      let (m, t) = filter-In served u rows k in
      elim (In-update version_id_of pv.id (moved_to env) rows u m) [
        | inl a ↦ (u, In-filter served u rows' a t, refl)
        | inr a ↦ (
          moved_to env u,
          In-filter served (moved_to env u) rows' a (ground (arith, same_env_self env)),
          refl,
        )
      ]

  new-bound :
      (w : PromptVersionModel)
      → In w (in_env pid env rows')
      → w.version ≤ max n (max_version (in_env pid env rows))
  new-bound w k =
      let (m, t) = filter-In served w rows' k in
      let (own, num, _) = pv-is in
      let (a, at, which) = update-In version_id_of pv.id (moved_to env) rows w m in
      elim which [
        | inl e ↦
            let t' : served a ≡ true = ap served (sym e) ∙ t in
            let bound = max_version-ge (in_env pid env rows) a (In-filter served a rows at t') in
            let same : w.version ≡ a.version = ap version_of e in omega arith
        | inr (key, e) ↦
            let a_is : a.version ≡ pv.version = ap version_of (primary a at key) in
            let same : w.version ≡ a.version = ap version_of e in omega arith
      ]

  latest_promoted :
      (w : PromptVersionModel) × (latest (in_env pid env rows') ≡ some w)
      × (w.version ≡ max n (max_version (in_env pid env rows)))
  latest_promoted =
      let (own, num, m) = pv-is in
      let (w, top) = top-some leb version_of (in_env pid env rows') (moved_to env pv) moved-In in
      let low : n ≤ w.version = omega (
        arith,
        top_nat-greatest version_of (in_env pid env rows') w (moved_to env pv) top moved-In,
      ) in
      let old : max_version (in_env pid env rows) ≤ w.version =
        max_version-le (in_env pid env rows) w.version (λ u k.
          let (u', k', e) = old-kept u k in
          omega (arith, top_nat-greatest version_of (in_env pid env rows') w u' top k')) in
      let high = new-bound w (top-In leb version_of (in_env pid env rows') w top) in
      (w, top, omega arith)

-- After version `n` of a prompt is promoted to an environment, a `get` for that environment serves
-- the version whose number is the greater of `n` and the greatest number that the environment held
-- before. The ids of versions are assumed to be their primary key.
pub promote-get :
    (name : Str) (n : ℕ) (target_env : Str) (db : PromptDb) (p : PromptModel)
    (env : PromptEnvironment) (pv : PromptVersionModel)
    → find_prompt name db.prompts ≡ some p
    → env_of target_env ≡ ok env
    → is_empty target_env ≡ false
    → find_version p.id n db.versions ≡ some pv
    → ((u : PromptVersionModel) → In u db.versions → u.id ≡ pv.id → u ≡ pv)
    → let db' = after (promote name n target_env) db in
      (w : PromptVersionModel) × (get name none (some target_env) db' ≡ ok (version_to_dict w, db'))
      × (w.version ≡ max n (max_version (in_env p.id env db.versions)))
promote-get name n target_env db p env pv found good full there primary =
    let (w, top, num) = latest_promoted p.id n env db.versions pv there primary in
    rw (promote_done name n target_env db p env pv found good there)
      (w, get-in_env name target_env (promoted pv.id env db) p env w found good full top, num)
