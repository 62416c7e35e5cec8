-- ===== src/Dedup/Identity.antt =====
-- `DedupEngine` on two candidates of one source and external identifier.
use bisakerja_scraper.Prelude.{
  ◌≡◌, ◌∙◌, refl, ap, subst, String, some, true, List, [], ◌∷◌, inl, inr, same_text_iff,
  Option-cases,
}
use bisakerja_scraper.Prelude.Text.{join_text}
use bisakerja_scraper.Prelude.Json.{truthy}
use bisakerja_scraper.Dedup.{
  Cleaning, Source, DedupCandidate, update, evaluate, resolve_source_identity, required_text,
  optional_text,
}
use bisakerja_scraper.Dedup.History.{after, last_with, Decided, DecidedBy, evaluate-Decided}

resolve_source_identity-key :
    (c : Cleaning) (source : Source) (platform external : String)
    → required_text c source.source_platform ≡ platform
    → optional_text c source.external_id ≡ some external
    → truthy platform ≡ true
    → truthy external ≡ true
    → (resolve_source_identity c source).key ≡ some (join_text platform (join_text ":" external))
unfolding resolve_source_identity
resolve_source_identity-key c source platform external p e tp te = rw (p, e, tp, te) refl

last_with-earlier :
    (key : String) (candidate : DedupCandidate) (between : List DedupCandidate)
    → candidate.identity.key ≡ some key
    → (last : DedupCandidate) × (last_with key (candidate ∷ between) ≡ some last)
last_with-earlier key candidate between e = elim (Option-cases (last_with key between)) [
  | inl fresh ↦ (candidate, let same = (same_text_iff key key).1 refl in rw (fresh, e, same) refl)
  | inr (later, found) ↦ (later, rw found refl)
]

-- Two candidates whose platforms clean to the same lower-case text and whose external identifiers clean
-- to the same text, neither text empty, have one identity: whatever their titles, companies, slugs and
-- links are, and whatever candidates come between them, the engine updates on the second one.
pub same_source-update :
    (c : Cleaning) (s t : Source) (first second : DedupCandidate) (between : List DedupCandidate)
    (platform external : String)
    → first.identity ≡ resolve_source_identity c s
    → second.identity ≡ resolve_source_identity c t
    → required_text c s.source_platform ≡ platform
    → required_text c t.source_platform ≡ platform
    → optional_text c s.external_id ≡ some external
    → optional_text c t.external_id ≡ some external
    → truthy platform ≡ true
    → truthy external ≡ true
    → (evaluate c second (after c (first ∷ between) [])).0.action ≡ update
same_source-update c s t first second between platform external i j ps pt es et tp te =
    let key = join_text platform (join_text ":" external) in
    let first_key =
      ap (λ identity. identity.key) i
      ∙ resolve_source_identity-key c s platform external ps es tp te in
    let second_key =
      ap (λ identity. identity.key) j
      ∙ resolve_source_identity-key c t platform external pt et tp te in
    let (last, found) = last_with-earlier key first between first_key in
    let decided = evaluate-Decided c (first ∷ between) second in
    let decision = (evaluate c second (after c (first ∷ between) [])).0 in
    let by_key = subst (λ k. Decided k (first ∷ between) decision) second_key decided in
    (subst (λ o. DecidedBy o decision) found by_key).0
