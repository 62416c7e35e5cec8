-- ===== src/Dedup/History.antt =====
-- `DedupEngine` after a sequence of candidates.
use bisakerja_scraper.Prelude.{
  ◌≡◌, ◌∙◌, refl, sym, subst, String, Option, none, some, Bool, false, List, [], ◌∷◌, if◌then◌else◌,
  inl, inr, same_text, Option-cases, arith,
}
use bisakerja_scraper.Dedup.{
  Cleaning, DedupCandidate, DedupDecision, Seen, insert, update, quarantine, lookup, evaluate,
}

-- The engine's state after the candidates, in their order.
abbrev pub after : Cleaning → List DedupCandidate → Seen → Seen
after c [] seen = seen
after c (candidate ∷ rest) seen = after c rest (evaluate c candidate seen).1

abbrev has_key : String → Option String → Bool
has_key key none = false
has_key key (some k) = same_text k key

abbrev last_of : Option DedupCandidate → Option DedupCandidate → Option DedupCandidate
last_of none earlier = earlier
last_of (some later) earlier = some later

-- The last of the candidates that has the key.
abbrev pub last_with : String → List DedupCandidate → Option DedupCandidate
last_with key [] = none
last_with key (candidate ∷ rest) =
    last_of (last_with key rest)
      (if has_key key candidate.identity.key then some candidate else none)

evaluate-lookup :
    (c : Cleaning) (candidate : DedupCandidate) (key : String) (seen : Seen)
    → lookup key (evaluate c candidate seen).1
      ≡ (if has_key key candidate.identity.key then some candidate else lookup key seen)
unfolding evaluate lookup
evaluate-lookup c candidate key seen = elim (Option-cases candidate.identity.key) [
  | inl missing ↦ rw missing refl
  | inr (k, e) ↦ elim (Option-cases (lookup k seen)) [
    | inl fresh ↦ rw (e, fresh) refl
    | inr (old, found) ↦ rw (e, found) refl
  ]
]

after-lookup :
    (c : Cleaning) (candidates : List DedupCandidate) (key : String) (seen : Seen)
    → lookup key (after c candidates seen) ≡ last_of (last_with key candidates) (lookup key seen)
after-lookup c [] key seen = refl
after-lookup c (candidate ∷ rest) key seen =
    let tail = after-lookup c rest key (evaluate c candidate seen).1 in
    let head = evaluate-lookup c candidate key seen in tail ∙ ground (arith, head)

-- What a decision is to be, for the last earlier candidate with the same key.
abbrev pub DecidedBy : Option DedupCandidate → DedupDecision → Type 0
DecidedBy none decision = (decision.action ≡ insert) × (decision.existing ≡ none)
DecidedBy (some earlier) decision = (decision.action ≡ update) × (decision.existing ≡ some earlier)

-- What a decision is to be, for the key and the earlier candidates.
abbrev pub Decided : Option String → List DedupCandidate → DedupDecision → Type 0
Decided none earlier decision = (decision.action ≡ quarantine) × (decision.existing ≡ none)
Decided (some key) earlier decision = DecidedBy (last_with key earlier) decision

evaluate-DecidedBy :
    (c : Cleaning) (candidate : DedupCandidate) (key : String) (seen : Seen)
    → candidate.identity.key ≡ some key
    → DecidedBy (lookup key seen) (evaluate c candidate seen).0
unfolding evaluate
evaluate-DecidedBy c candidate key seen e = elim (Option-cases (lookup key seen)) [
  | inl fresh ↦ rw (e, fresh) (refl, refl)
  | inr (old, found) ↦ rw (e, found) (refl, refl)
]

evaluate-keyless :
    (c : Cleaning) (candidate : DedupCandidate) (seen : Seen)
    → candidate.identity.key ≡ none
    → let decision = (evaluate c candidate seen).0 in
      (decision.action ≡ quarantine) × (decision.existing ≡ none)
unfolding evaluate
evaluate-keyless c candidate seen e = rw e (refl, refl)

last_of-none : (o : Option DedupCandidate) → last_of o none ≡ o
last_of-none none = refl
last_of-none (some later) = refl

-- An engine that starts empty remembers the last candidate of each key.
pub after-last_with :
    (c : Cleaning) (earlier : List DedupCandidate) (key : String)
    → lookup key (after c earlier []) ≡ last_with key earlier
unfolding lookup
after-last_with c earlier key = after-lookup c earlier key [] ∙ last_of-none (last_with key earlier)

-- After any sequence of candidates an empty engine decides on the next one as its key and the history
-- say: it quarantines one without a key, inserts one whose key no earlier candidate has, and otherwise
-- updates, and the existing candidate that it names is the last earlier one with that key.
pub evaluate-Decided :
    (c : Cleaning) (earlier : List DedupCandidate) (candidate : DedupCandidate)
    → Decided candidate.identity.key earlier (evaluate c candidate (after c earlier [])).0
evaluate-Decided c earlier candidate = elim (Option-cases candidate.identity.key) [
  | inl missing ↦
      subst (λ key. Decided key earlier (evaluate c candidate (after c earlier [])).0) (sym missing)
        (evaluate-keyless c candidate (after c earlier []) missing)
  | inr (key, e) ↦
      let decision = (evaluate c candidate (after c earlier [])).0 in
      subst (λ key. Decided key earlier decision) (sym e)
        (subst (λ last. DecidedBy last decision) (after-last_with c earlier key)
          (evaluate-DecidedBy c candidate key (after c earlier []) e))
]
