-- ===== src/Normalize/Lookup.antt =====
-- src/jobs/pipeline.py: how `_normalize_source` comes to its gate, by `_lookup_backend_identities`. `none` is
-- a NormalizeError that leaves the stage. The lookup itself reads the backend's database, and is a parameter.
use bisakerja_scraper.Prelude.{
  ◌≡◌, ◌≢◌, ◌⊎◌, inl, inr, refl, String, Option, none, some, Bool, Option-cases, true, false, ◌&&◌,
  List, [], ◌∷◌, if◌then◌else◌,
}
use bisakerja_scraper.Prelude.Json.{Fields, truthy}
use bisakerja_scraper.Models.{RawJob}
use bisakerja_scraper.Eligibility.{Texts, Scope, Decisions, normalize_key}
use bisakerja_scraper.Normalize.{Work, Gate, open_gate, resolver}

-- `dict[tuple[str, str], dict[str, Any]]`
abbrev pub Existing : Type 0
Existing = String → String → Option Fields

abbrev pub nothing_existing : Existing
nothing_existing source_platform external_id = none

-- The attributes of the orchestrator that the gate depends on. The resolver's scope and table of decisions
-- depend on the tables of the session; the `backend_existing` of that scope is filled in here. A set of
-- identities is a list, and `none` of `find_existing` is a BackendIdentityLookupError.
pub record Lookup : Type 0 where
  pub eligibility_resolver : Option (Work → Scope × Decisions)
  pub require_backend_identity_lookup : Bool
  pub backend_identity_lookup : Option (List (String × String) → Option Existing)

pub identities : Texts → List RawJob → List (String × String)
identities t [] = []
identities t (raw_job ∷ rest) =
    let others = identities t rest in
    if truthy (t.strip raw_job.source_platform) && truthy (t.strip raw_job.external_id)
    then (normalize_key t raw_job.source_platform, normalize_key t raw_job.external_id) ∷ others
    else others

-- Without an answer: the NormalizeError if one is required, and nothing otherwise.
abbrev pub unanswered : (required : Bool) → Option Existing
unanswered true = none
unanswered false = some nothing_existing

abbrev pub answer_or : (required : Bool) → Option Existing → Option Existing
answer_or required none = unanswered required
answer_or required (some existing) = some existing

abbrev pub find_with :
    (required : Bool)
    → Option (List (String × String) → Option Existing)
    → List (String × String)
    → Option Existing
find_with required none found = unanswered required
find_with required (some find_existing) found = answer_or required (find_existing found)

abbrev pub look_up : Lookup → List (String × String) → Option Existing
look_up l [] = some nothing_existing
look_up l (identity ∷ rest) =
    find_with l.require_backend_identity_lookup l.backend_identity_lookup (identity ∷ rest)

-- `_lookup_backend_identities`
unfoldable pub lookup_backend_identities : Lookup → Texts → List RawJob → Option Existing
lookup_backend_identities l t raw_jobs = look_up l (identities t raw_jobs)

abbrev pub resolver_of : Scope × Decisions → Option Existing → Option Gate
resolver_of (scope, decisions) none = none
resolver_of (scope, decisions) (some existing) =
    some (resolver (record scope { backend_existing = existing }) decisions)

abbrev pub without_resolver : (required : Bool) → Option Gate
without_resolver true = none
without_resolver false = some open_gate

abbrev pub gate_with : Option (Work → Scope × Decisions) → Lookup → List RawJob → Work → Option Gate
gate_with none l raw_jobs work = without_resolver l.require_backend_identity_lookup
gate_with (some build) l raw_jobs work =
    let (scope, decisions) = build work in
    resolver_of (scope, decisions) (lookup_backend_identities l scope.texts raw_jobs)

-- The gate of a source.
unfoldable pub gate_of : Lookup → List RawJob → Work → Option Gate
gate_of l raw_jobs work = gate_with l.eligibility_resolver l raw_jobs work

-- A lookup that is not required, or one that is configured, with a resolver, and always answers.
abbrev pub Answers : Lookup → Type 0
Answers l =
    (l.require_backend_identity_lookup ≡ false)
    ⊎ ((build : Work → Scope × Decisions) × (find_existing : List (String × String)
          → Option Existing)
        × (l.eligibility_resolver ≡ some build)
        × (l.backend_identity_lookup ≡ some find_existing)
        × ((found : List (String × String)) → find_existing found ≢ none))

look_up-not_required :
    (find : Option (List (String × String) → Option Existing)) (found : List (String × String))
    → (existing : Existing) × (find_with false find found ≡ some existing)
look_up-not_required none found = (nothing_existing, refl)
look_up-not_required (some find) found = elim (Option-cases (find found)) [
  | inl missing ↦ (nothing_existing, rw missing refl)
  | inr (existing, e) ↦ (existing, rw e refl)
]

look_up-Answers :
    (l : Lookup) (found : List (String × String))
    → Answers l
    → (existing : Existing) × (look_up l found ≡ some existing)
look_up-Answers l [] h = (nothing_existing, refl)
look_up-Answers l (identity ∷ rest) (inl optional) =
    rw optional (look_up-not_required l.backend_identity_lookup (identity ∷ rest))
look_up-Answers l (identity ∷ rest) (inr (build, find, has_resolver, configured, answers)) =
    elim (Option-cases (find (identity ∷ rest))) [
      | inl missing ↦ absurd (answers (identity ∷ rest) missing)
      | inr (existing, e) ↦ (existing, rw (configured, e) refl)
    ]

-- A lookup that answers gives a gate.
pub gate_of-Answers :
    (l : Lookup) (raw_jobs : List RawJob) (work : Work)
    → Answers l
    → (gate : Gate) × (gate_of l raw_jobs work ≡ some gate)
unfolding gate_of lookup_backend_identities
gate_of-Answers l raw_jobs work h = elim (Option-cases l.eligibility_resolver) [
  | inl missing ↦ elim h [
    | inl optional ↦ (open_gate, rw (missing, optional) refl)
    | inr (build, find, has_resolver, configured, answers) ↦ absurd (cc)
  ]
  | inr (build, found) ↦
      let (scope, decisions) = build work in
      let (existing, e) = look_up-Answers l (identities scope.texts raw_jobs) h in
      (resolver (record scope { backend_existing = existing }) decisions, rw (found, e) refl)
]
