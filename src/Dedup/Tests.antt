-- ===== src/Dedup/Tests.antt =====
-- Runs of the engine on listings of one source; the texts are clean already.
use bisakerja_scraper.Prelude.{◌≡◌, refl, String, none, some, [], ◌∷◌}
use bisakerja_scraper.Prelude.Json.{Json}
use bisakerja_scraper.Dedup.{
  Cleaning, Source, DedupCandidate, update, slug_drift, evaluate, resolve_source_identity,
  make_fallback_fingerprint, lookup, duplicate_reason,
}
use bisakerja_scraper.Dedup.History.{after, Decided, evaluate-Decided}
use bisakerja_scraper.Dedup.Identity.{same_source-update}

abbrev cleaning : Cleaning
cleaning = record {
  clean_text = λ text. some text;
  lower = λ text. text;
  sha256_of_json = λ _. "digest";
}

abbrev source : String → Source
source slug = record {
  source_platform = Json.str "dealls";
  external_id = Json.str "42";
  source_slug = Json.str slug;
  title = Json.str "Engineer";
  company_name = Json.null;
  source_url = Json.null;
}

abbrev candidate : String → DedupCandidate
candidate slug = record {
  identity = resolve_source_identity cleaning (source slug);
  title = some "Engineer";
  company_name = none;
  source_url = none;
}

abbrev unnamed : Source
unnamed = record (source "") { external_id = Json.null; source_slug = Json.null; title = Json.null }

no_identity : (resolve_source_identity cleaning unnamed).key ≡ none
unfolding resolve_source_identity make_fallback_fingerprint
no_identity = refl

drift :
    (evaluate cleaning (candidate "b") (after cleaning (candidate "a" ∷ []) [])).0.reason
    ≡ slug_drift
unfolding evaluate resolve_source_identity lookup duplicate_reason
drift = refl

evaluate-Decided_example :
    Decided
      (candidate "b").identity.key
      (candidate "a" ∷ [])
      (evaluate cleaning (candidate "b") (after cleaning (candidate "a" ∷ []) [])).0
evaluate-Decided_example = evaluate-Decided cleaning (candidate "a" ∷ []) (candidate "b")

same_source-update_example :
    (evaluate cleaning (candidate "b") (after cleaning (candidate "a" ∷ []) [])).0.action ≡ update
same_source-update_example =
    same_source-update cleaning (source "a") (source "b") (candidate "a") (candidate "b") []
      "dealls" "42" refl refl refl refl refl refl refl refl
