-- ===== src/Dedup.antt =====
-- src/modules/deduplication/engine.py: the identity of a scraped job, and the engine that decides what
-- to do with a candidate. `clean_text`, which strips markup, `str.lower` and the SHA-256 of a JSON
-- text are parameters.
pub mod Identity
pub mod History
mod Tests
use bisakerja_scraper.Prelude.{
  String, Option, none, some, Bool, true, false, not, ◌&&◌, ◌||◌, List, [], ◌∷◌, if◌then◌else◌,
  same_text,
}
use bisakerja_scraper.Prelude.Json.{Json, Fields, truthy}
use bisakerja_scraper.Prelude.Text.{join_text}

pub data DedupAction : Type 0 where
  insert update quarantine : DedupAction

pub data DedupReason : Type 0 where
  new_identity duplicate_identity missing_identity fallback_fingerprint slug_drift
        identity_collision :
      DedupReason

pub record SourceIdentity : Type 0 where
  pub source_platform : String
  pub external_id : Option String
  pub source_slug : Option String
  pub fingerprint : Option String
  pub key : Option String
  pub uses_fallback : Bool

pub record DedupCandidate : Type 0 where
  pub identity : SourceIdentity
  pub title : Option String
  pub company_name : Option String
  pub source_url : Option String

-- The decision; its `dedup_reason` is the text of its reason.
pub record DedupDecision : Type 0 where
  pub action : DedupAction
  pub reason : DedupReason
  pub identity : SourceIdentity
  pub existing : Option DedupCandidate

pub record Cleaning : Type 0 where
  pub clean_text : String → Option String
  pub lower : String → String
  pub sha256_of_json : Fields → String

-- `_optional_text`
abbrev pub optional_text : Cleaning → Json → Option String
optional_text c (Json.str value) = c.clean_text value
optional_text c _ = none

-- `if text:` for a text or None.
abbrev pub is_given : Option String → Bool
is_given none = false
is_given (some text) = truthy text

abbrev pub lower_or_empty : Cleaning → Option String → String
lower_or_empty c none = ""
lower_or_empty c (some text) = if truthy text then c.lower text else ""

-- `_required_text`
abbrev pub required_text : Cleaning → Json → String
required_text c value = lower_or_empty c (optional_text c value)

-- The arguments of `resolve_source_identity`.
pub record Source : Type 0 where
  pub source_platform : Json
  pub external_id : Json
  pub source_slug : Json
  pub title : Json
  pub company_name : Json
  pub source_url : Json

abbrev json_of : Option String → Json
json_of none = Json.null
json_of (some text) = Json.str text

-- `payload`, with its keys in the order that `sort_keys` gives them.
abbrev pub payload_of : (platform : String) (slug title company url : Option String) → Fields
payload_of platform slug title company url = Fields.field "company_name" (json_of company) (
    Fields.field "source_platform" (Json.str platform) (
      Fields.field "source_slug" (json_of slug) (
        Fields.field "source_url" (json_of url) (Fields.field "title" (json_of title) Fields.end))))

-- `make_fallback_fingerprint`, on a platform and a slug as texts or None.
pub make_fallback_fingerprint : Cleaning → Source → Option String
make_fallback_fingerprint c source =
    let platform = required_text c source.source_platform in
    let slug = optional_text c source.source_slug in
    let title = optional_text c source.title in
    let company = optional_text c source.company_name in
    let url = optional_text c source.source_url in
    if not (truthy platform)
    then none
    else if not (is_given slug || is_given title || is_given company || is_given url)
    then none
    else some (c.sha256_of_json (payload_of platform slug title company url))

abbrev pub fingerprint_key : (platform : String) → Option String → Option String
fingerprint_key platform none = none
fingerprint_key platform (some fingerprint) =
    if truthy fingerprint
    then some (join_text platform (join_text ":fingerprint:" fingerprint))
    else none

abbrev is_some {ℓ} : {A : Type ℓ} → Option A → Bool
is_some none = false
is_some (some a) = true

abbrev fallback_identity : (platform : String) (slug fingerprint : Option String) → SourceIdentity
fallback_identity platform slug fingerprint = record {
  source_platform = platform;
  external_id = none;
  source_slug = slug;
  fingerprint = fingerprint;
  key = fingerprint_key platform fingerprint;
  uses_fallback = is_some fingerprint;
}

abbrev plain_identity : (platform : String) (external slug key : Option String) → SourceIdentity
plain_identity platform external slug key = record {
  source_platform = platform;
  external_id = external;
  source_slug = slug;
  fingerprint = none;
  key = key;
  uses_fallback = false;
}

abbrev pub external_key : (platform : String) → Option String → Option String
external_key platform none = none
external_key platform (some external) = some (join_text platform (join_text ":" external))

-- `resolve_source_identity`. The fingerprint is made of the cleaned platform and slug, which the code
-- cleans once more.
pub resolve_source_identity : Cleaning → Source → SourceIdentity
resolve_source_identity c source =
    let platform = required_text c source.source_platform in
    let external = optional_text c source.external_id in
    let slug = optional_text c source.source_slug in
    if not (truthy platform)
    then plain_identity "" external slug none
    else if is_given external
    then plain_identity platform external slug (external_key platform external)
    else fallback_identity platform slug (
        make_fallback_fingerprint c
          (record source { source_platform = Json.str platform; source_slug = json_of slug }))

-- `a == b` of two texts or Nones.
abbrev pub same_option : Option String → Option String → Bool
same_option none none = true
same_option (some a) (some b) = same_text a b
same_option _ _ = false

abbrev pub both_given : Option String → Option String → Bool
both_given a b = is_given a && is_given b

-- `_duplicate_reason`
pub duplicate_reason : Cleaning → (existing incoming : DedupCandidate) → DedupReason
duplicate_reason c existing incoming =
    let slug_changed =
      both_given existing.identity.source_slug incoming.identity.source_slug
      && not (same_option existing.identity.source_slug incoming.identity.source_slug) in
    let identity_text_changed =
      not (
        same_option (optional_text c (json_of existing.title))
          (optional_text c (json_of incoming.title)))
      && not (
          same_option (optional_text c (json_of existing.company_name))
            (optional_text c (json_of incoming.company_name))) in
    if slug_changed && identity_text_changed
    then identity_collision
    else if slug_changed
    then slug_drift
    else duplicate_identity

-- `DedupEngine._seen`: the first entry of a key counts.
abbrev pub Seen : Type 0
Seen = List (String × DedupCandidate)

pub lookup : String → Seen → Option DedupCandidate
lookup key [] = none
lookup key ((k, candidate) ∷ seen) =
    let rest = lookup key seen in if same_text k key then some candidate else rest

abbrev first_decision : DedupCandidate → DedupDecision
first_decision candidate = record {
  action = insert;
  reason = if candidate.identity.uses_fallback then fallback_fingerprint else new_identity;
  identity = candidate.identity;
  existing = none;
}

abbrev judge :
    Cleaning → DedupCandidate → (key : String) → Option DedupCandidate → Seen → DedupDecision × Seen
judge c candidate key none seen = (first_decision candidate, (key, candidate) ∷ seen)
judge c candidate key (some existing) seen = (
  record {
    action = update;
    reason = duplicate_reason c existing candidate;
    identity = candidate.identity;
    existing = some existing;
  },
  (key, candidate) ∷ seen,
)

abbrev evaluate_key : Cleaning → DedupCandidate → Option String → Seen → DedupDecision × Seen
evaluate_key c candidate none seen = (
  record {
    action = quarantine;
    reason = missing_identity;
    identity = candidate.identity;
    existing = none;
  },
  seen,
)
evaluate_key c candidate (some key) seen = judge c candidate key (lookup key seen) seen

-- `DedupEngine.evaluate`
pub evaluate : Cleaning → DedupCandidate → Seen → DedupDecision × Seen
evaluate c candidate seen = evaluate_key c candidate candidate.identity.key seen
