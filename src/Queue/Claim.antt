-- ===== src/Queue/Claim.antt =====
-- Which row `claim_next` selects.
use bisakerja_scraper.Prelude.{
  ℕ, suc, ◌+◌, ◌≡◌, refl, Option, none, some, true, false, [], ◌∷◌, arith, get_elem?, modify, ◌↔◌,
  All, if◌then◌else◌, Bool-cases, Option-cases, inl, inr, subst, ◌≤◌, ◌<◌, ◌⊎◌, ◌≢◌, ◌==◌,
  get_elem?-modify_self, get_elem?-modify_other,
}
use bisakerja_scraper.Queue.{
  StageJob, StageJobType, Table, claimable, not_after, first_of_two, select_first, claim_next,
  claimed_row, StageJobStatus, pending, failed, running, same_type, is_open,
}

-- No claimable row of the table is due before `job`.
abbrev pub IsFirst : StageJobType → ℕ → StageJob → StageJob → Type 0
IsFirst job_type now job other = claimable job_type now other ≡ true → not_after job other ≡ true

not_after_refl : (a : StageJob) → not_after a a ≡ true
unfolding not_after
not_after_refl a = ground arith

not_after_trans :
    (a b c : StageJob) → not_after a b ≡ true → not_after b c ≡ true → not_after a c ≡ true
unfolding not_after
not_after_trans a b c h k = ground arith

not_after_total : (a b : StageJob) → not_after a b ≡ false → not_after b a ≡ true
unfolding not_after
not_after_total a b h = ground arith

-- What a selection says of the rows that it was made from, which start at position `i`.
pub record Selected (job_type : StageJobType) (now i : ℕ) (rows : Table) (j : ℕ) (job : StageJob)
    : Type 0 where
  pub offset : ℕ
  pub place : j ≡ i + offset
  pub row : get_elem? rows offset ≡ some job
  pub can_claim : claimable job_type now job ≡ true
  pub first : All (IsFirst job_type now job) rows

All-weaken :
    (job_type : StageJobType) (now : ℕ) (a b : StageJob) (rows : Table)
    → not_after a b ≡ true
    → All (IsFirst job_type now b) rows
    → All (IsFirst job_type now a) rows
All-weaken job_type now a b [] h k = tt
All-weaken job_type now a b (c ∷ rows) h k =
    (λ open_row. not_after_trans a b c h (k.0 open_row), All-weaken job_type now a b rows h k.1)

All-unclaimable :
    (job_type : StageJobType) (now : ℕ) (a : StageJob) (rows : Table)
    → All (λ job. claimable job_type now job ≡ false) rows
    → All (IsFirst job_type now a) rows
All-unclaimable job_type now a [] h = tt
All-unclaimable job_type now a (c ∷ rows) h =
    (λ open_row. cc (h.0), All-unclaimable job_type now a rows h.1)

select_first-none :
    (job_type : StageJobType) (now i : ℕ) (rows : Table)
    → select_first job_type now i rows ≡ none
    → All (λ job. claimable job_type now job ≡ false) rows
unfolding select_first
select_first-none job_type now i [] h = tt
select_first-none job_type now i (job ∷ rows) h =
    let later = select_first-none job_type now (suc i) rows in
    elim (Bool-cases (claimable job_type now job)) [
      | inl open_row ↦ absurd (elim (Option-cases (select_first job_type now (suc i) rows)) [
        | inl e ↦ ground arith
        | inr ((j, b), e) ↦ ground arith
      ])
      | inr shut ↦ (shut, later (ground arith))
    ]

module _ (job_type : StageJobType) (now : ℕ) where
  Selected-here :
      (i : ℕ) (rows : Table) (job : StageJob)
      → claimable job_type now job ≡ true
      → All (IsFirst job_type now job) rows
      → Selected job_type now i (job ∷ rows) i job
  Selected-here i rows job open_row h = record {
    offset = 0;
    place = omega arith;
    row = refl;
    can_claim = open_row;
    first = (λ _. not_after_refl job, h);
  }

  Selected-later :
      (i : ℕ) (rows : Table) (a : StageJob) (j : ℕ) (job : StageJob)
      → IsFirst job_type now job a
      → Selected job_type now (suc i) rows j job
      → Selected job_type now i (a ∷ rows) j job
  Selected-later i rows a j job h s = record {
    offset = suc s.offset;
    place = omega (arith, s.place);
    row = s.row;
    can_claim = s.can_claim;
    first = (h, s.first);
  }

  Selected-cast :
      {i j k : ℕ} {rows : Table} {a b : StageJob}
      → ◌≡◌ {A = Option (ℕ × StageJob)} (some (i, a)) (some (j, b))
      → Selected job_type now k rows i a
      → Selected job_type now k rows j b
  Selected-cast {i} {j} {k} {rows} {a} {b} e s =
      let same_place : i ≡ j = cc in
      let same_row : a ≡ b = cc in
      subst (λ p. Selected job_type now k rows p b) same_place
        (subst (λ r. Selected job_type now k rows i r) same_row s)

  -- The row at the head of the table, and the selection among the rows behind it.
  Selected-step :
      (i : ℕ) (a : StageJob) (rows : Table) (later : Option (ℕ × StageJob))
      → select_first job_type now (suc i) rows ≡ later
      → ((j : ℕ) (job : StageJob)
          → later ≡ some (j, job)
          → Selected job_type now (suc i) rows j job)
      → (j : ℕ) (job : StageJob)
      → (if claimable job_type now a then first_of_two i a later else later) ≡ some (j, job)
      → Selected job_type now i (a ∷ rows) j job
  Selected-step i a rows none e ih j job h = elim (Bool-cases (claimable job_type now a)) [
    | inl open_row ↦ Selected-cast (rw open_row at h) (
        Selected-here i rows a open_row
          (All-unclaimable job_type now a rows (select_first-none job_type now (suc i) rows e)))
    | inr shut ↦ absurd (ground arith)
  ]
  Selected-step i a rows (some (k, b)) e ih j job h =
      let behind : Selected job_type now (suc i) rows k b = ih k b refl in
      elim (Bool-cases (claimable job_type now a)) [
        | inl open_row ↦ elim (Bool-cases (not_after a b)) [
          | inl before ↦ Selected-cast (rw (open_row, before) at h) (
              Selected-here i rows a open_row
                (All-weaken job_type now a b rows before behind.first))
          | inr after ↦
              Selected-cast (rw (open_row, after) at h)
                (Selected-later i rows a k b (λ _. not_after_total a b after) behind)
        ]
        | inr shut ↦
            Selected-cast (rw shut at h) (Selected-later i rows a k b (λ open_row. cc) behind)
      ]

  pub select_first-Selected :
      (i : ℕ) (rows : Table) (j : ℕ) (job : StageJob)
      → select_first job_type now i rows ≡ some (j, job)
      → Selected job_type now i rows j job
  unfolding select_first
  select_first-Selected i [] j job h = absurd (cc)
  select_first-Selected i (a ∷ rows) j job h =
      Selected-step i a rows (select_first job_type now (suc i) rows) refl
        (λ k b e. select_first-Selected (suc i) rows k b e) j job h

-- The row can be claimed: it is of the type, pending or failed, due, and has attempts left.
abbrev pub IsDue : StageJobType → ℕ → StageJob → Type 0
IsDue job_type now job =
    (job.job_type ≡ job_type)
    × ((job.status ≡ pending) ⊎ (job.status ≡ failed))
    × (job.available_at ≤ now)
    × (job.attempt_count < job.max_attempts)

-- The first row is due before the second one, or at the same time and was not created later.
abbrev pub IsBefore : StageJob → StageJob → Type 0
IsBefore a b =
    (a.available_at < b.available_at)
    ⊎ ((a.available_at ≡ b.available_at) × (a.created_at ≤ b.created_at))

abbrev pub IsEarliest : StageJobType → ℕ → StageJob → StageJob → Type 0
IsEarliest job_type now job other = ¬ IsDue job_type now other ⊎ IsBefore job other

same_type_iff : (a b : StageJobType) → (same_type a b ≡ true) ↔ (a ≡ b)
same_type_iff a b = ground arith

is_open_iff :
    (status : StageJobStatus) → (is_open status ≡ true) ↔ ((status ≡ pending) ⊎ (status ≡ failed))
is_open_iff status = ground arith

claimable_iff :
    (job_type : StageJobType) (now : ℕ) (job : StageJob)
    → (claimable job_type now job ≡ true) ↔ IsDue job_type now job
unfolding claimable
claimable_iff job_type now job =
    ground (arith, same_type_iff job.job_type job_type, is_open_iff job.status)

not_after-IsBefore : (a b : StageJob) → not_after a b ≡ true → IsBefore a b
unfolding not_after
not_after-IsBefore a b h = ground arith

IsFirst-IsEarliest :
    (job_type : StageJobType) (now : ℕ) (job : StageJob) (rows : Table)
    → All (IsFirst job_type now job) rows
    → All (IsEarliest job_type now job) rows
IsFirst-IsEarliest job_type now job [] h = tt
IsFirst-IsEarliest job_type now job (other ∷ rows) h = (
  elim (Bool-cases (claimable job_type now other)) [
    | inl open_row ↦ inr (not_after-IsBefore job other (h.0 open_row))
    | inr shut ↦ inl (λ due. let open_row = (claimable_iff job_type now other).1 due in cc)
  ],
  IsFirst-IsEarliest job_type now job rows h.1,
)

-- What a successful claim does: the claimed row stood in the table and was due, no other due row is
-- before it; it is written back as running, locked at `now` and without an error, its other columns are
-- kept, and no other row changes.
pub record Claims (job_type : StageJobType) (now : ℕ) (table : Table) (i : ℕ) (job : StageJob)
    (table' : Table) : Type 0 where
  pub old : StageJob
  pub stood : get_elem? table i ≡ some old
  pub is_due : IsDue job_type now old
  pub first : All (IsEarliest job_type now old) table
  pub marked : job ≡ record old {
    status = running;
    locked_at = some now;
    error_category = none;
    error_message = none;
  }
  pub written : get_elem? table' i ≡ some job
  pub others : (k : ℕ) → (i ≡ k) ⊎ (get_elem? table' k ≡ get_elem? table k)

-- If `claim_next` returns a job, then that row stood in the table, was of the job type, pending or failed,
-- available by now and with attempts left, every other such row is available later, or at the same time
-- and not created before it, and the table changes at that row only, which becomes running with the
-- claim's time and no error and keeps its other columns.
pub claim_next-Claims :
    (job_type : StageJobType) (now : ℕ) (table : Table) (i : ℕ) (job : StageJob) (table' : Table)
    → claim_next job_type now table ≡ (some (i, job), table')
    → Claims job_type now table i job table'
unfolding claim_next
claim_next-Claims job_type now table i job table' h =
    elim (Option-cases (select_first job_type now 0 table)) [
      | inl e ↦ absurd (ground arith)
      | inr ((j, old), e) ↦
          let s = select_first-Selected job_type now 0 table j old e in
          let offset_is_place : s.offset ≡ j = omega (arith, s.place) in
          let same_place : j ≡ i = ground arith in
          record {
            old = old;
            stood = cc (s.row, offset_is_place, same_place);
            is_due = (claimable_iff job_type now old).0 s.can_claim;
            first = IsFirst-IsEarliest job_type now old table s.first;
            marked = ground arith;
            written =
                let at_place : get_elem? table i ≡ some old =
                  cc (s.row, offset_is_place, same_place) in
                let changed = get_elem?-modify_self table i (claimed_row now) old at_place in
                ground arith;
            others = λ k.
                let same_table : table' ≡ modify table i (claimed_row now) = ground arith in
                elim (Bool-cases (i == k)) [
                  | inl same ↦ inl (ground arith)
                  | inr differ ↦
                      let other : i ≢ k = λ e. ground arith in
                      inr (rw same_table (get_elem?-modify_other table i k (claimed_row now) other))
                ];
          }
    ]
