-- ===== src/Middleware/Auth.antt =====
-- api/middleware/auth.py, and the key list of config.py that it reads.
use llmops_platform.Prelude.{
  ◌≡◌, refl, sym, ap, ◌∙◌, ◌⊎◌, inl, inr, Str, codes, Bool, true, false, Option, none, some, List,
  [], ◌∷◌, ◌++◌, arith, string_eq, if◌then◌else◌, is_empty, is_nil, contains, contains-In, In,
  In-contains, All, All-In, In-is_nil, Result, ok, err, Exc, Bool-cases,
}
use llmops_platform.Middleware.Strings.{strip, split, removeprefix, strip_idem, removeprefix-append}

-- `Settings.api_key_list`: `[k.strip() for k in self.api_keys.split(",") if k.strip()]`
unfoldable pub strip_all : List Str → List Str
strip_all [] = []
strip_all (k ∷ ks) = let rest = strip_all ks in if is_empty (strip k) then rest else strip k ∷ rest

unfoldable pub api_key_list : Str → List Str
unfolding strip_all
api_key_list api_keys = strip_all (split b',' api_keys)

abbrev pub public_paths : List Str
public_paths =
    codes "/healthz"
    ∷ codes "/readyz"
    ∷ codes "/metrics"
    ∷ codes "/docs"
    ∷ codes "/redoc"
    ∷ codes "/openapi.json"
    ∷ []

abbrev pub bearer : Str
bearer = codes "Bearer "

unfoldable pub is_public : Str → Bool
is_public path = contains public_paths path

-- The last part of `verify_api_key`, for a header that is given and not empty.
check_key : List Str → Str → Result Str
check_key keys api_key =
    let key = strip (removeprefix api_key bearer) in
    if contains keys key then ok key else err (Exc.http 401 Exc.invalid_api_key)

pub check_header : List Str → Option Str → Result Str
unfolding check_key
check_header keys none = err (Exc.http 401 Exc.missing_authorization)
check_header keys (some api_key) =
    if is_empty api_key
    then err (Exc.http 401 Exc.missing_authorization)
    else check_key keys api_key

-- `verify_api_key`, with the configured keys, the path and the `Authorization` header.
unfoldable pub verify_api_key : List Str → Str → Option Str → Result Str
unfolding is_public check_header
verify_api_key keys path api_key =
    if is_public path
    then ok (codes "public")
    else if is_nil keys
    then ok (codes "dev")
    else check_header keys api_key

-- A key of the list is not empty, and has no white space around it.
abbrev pub IsKey : Str → Type 0
IsKey k = (is_empty k ≡ false) × (strip k ≡ k)

strip_all-IsKey : (ks : List Str) → All IsKey (strip_all ks)
unfolding strip_all
strip_all-IsKey [] = tt
strip_all-IsKey (k ∷ ks) = elim (Bool-cases (is_empty (strip k))) [
  | inl e ↦ rw e (strip_all-IsKey ks)
  | inr e ↦ rw e ((e, strip_idem k), strip_all-IsKey ks)
]

-- However the setting is written, its keys are not empty and have no white space around them.
pub api_key_list-IsKey : (api_keys : Str) → All IsKey (api_key_list api_keys)
unfolding api_key_list
api_key_list-IsKey api_keys = strip_all-IsKey (split b',' api_keys)

-- What a request needs to be let in.
abbrev pub Admitted : List Str → Str → Option Str → Str → Type 0
Admitted keys path api_key who =
    (is_public path ≡ true) × (who ≡ codes "public")
    ⊎ ((is_nil keys ≡ true) × (who ≡ codes "dev")
        ⊎ ((h : Str) × (api_key ≡ some h) × (who ≡ strip (removeprefix h bearer)) × In who keys))

check_header-Admitted :
    (keys : List Str) (path : Str) (api_key : Option Str) (who : Str)
    → check_header keys api_key ≡ ok who
    → Admitted keys path api_key who
unfolding check_header
check_header-Admitted keys path none who h = absurd (cc)
check_header-Admitted keys path (some s) who h = elim (Bool-cases (is_empty s)) [
  | inl e ↦ absurd (ground arith)
  | inr e ↦
      let key = strip (removeprefix s bearer) in
      elim (Bool-cases (contains keys key)) [
        | inl m ↦
            let same : key ≡ who = ground arith in
            inr (inr (s, refl, sym same, rw (← same) (contains-In keys key m)))
        | inr m ↦ absurd (ground arith)
      ]
]

-- A request that is let in asks for a public path, or no key is configured, or its header carries,
-- behind an optional "Bearer ", one of the configured keys.
pub verify_api_key-Admitted :
    (keys : List Str) (path : Str) (api_key : Option Str) (who : Str)
    → verify_api_key keys path api_key ≡ ok who
    → Admitted keys path api_key who
unfolding verify_api_key
verify_api_key-Admitted keys path api_key who h = elim (Bool-cases (is_public path)) [
  | inl p ↦ inl (p, ground arith)
  | inr p ↦ elim (Bool-cases (is_nil keys)) [
    | inl n ↦ inr (inl (n, ground arith))
    | inr n ↦ check_header-Admitted keys path api_key who (ground arith)
  ]
]

-- Every key of the setting opens every path: on a path that is not public, the header "Bearer "
-- with the key behind it is let in under that key.
pub verify_api_key_complete :
    (api_keys path k : Str)
    → is_public path ≡ false
    → In k (api_key_list api_keys)
    → verify_api_key (api_key_list api_keys) path (some (bearer ++ k)) ≡ ok k
unfolding verify_api_key
verify_api_key_complete api_keys path k closed m =
    let keys = api_key_list api_keys in
    let (full, clean) = All-In IsKey keys k (api_key_list-IsKey api_keys) m in
    let some_key : is_nil keys ≡ false = In-is_nil keys k m in
    let key : strip (removeprefix (bearer ++ k) bearer) ≡ k =
      ap strip (removeprefix-append bearer k) ∙ clean in
    rw (closed, some_key, key, In-contains keys k m)
