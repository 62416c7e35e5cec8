-- ===== src/Persistence/Write.antt =====
-- `write_job` writes both rows, or none.
use bisakerja_scraper.Prelude.{
  ◌↔◌, All, map, [], ◌∷◌, sym, subst, ap, ◌∙◌, some, String, ◌≤◌, ◌≡◌, refl, Bool, true, false,
  List, length, keep, if◌then◌else◌,
}
use bisakerja_scraper.Prelude.Upsert.{upsert_where-get, is_nil, changed_or_new, first}
use bisakerja_scraper.Models.{NormalizedJob, RawJob}
use bisakerja_scraper.Persistence.{
  RawJobInput, CanonicalJob, Tables, Session, WriteResult, written, persist_error, WriteContext,
  is_raw, raw_row, changed_raw, upsert_raw_job, is_normalized, normalized_row, changed_normalized,
  upsert_normalized_job, raw_id_at, write_tables, write_job, rollback, conclude_write,
}
use bisakerja_scraper.Persistence.Columns.{
  kept_id, HoldsInput, HoldsJob, raws-columns, normals-columns,
}
use bisakerja_scraper.Persistence.Identity.{
  same_pair, upsert_raw_job-one_row, upsert_normalized_job-one_row,
}

is_nil_iff :
    {A : Type 0} (created : Bool) (rows : List A)
    → created ≡ is_nil rows
    → (created ≡ true) ↔ (rows ≡ [])
is_nil_iff created [] e = (λ h. refl, λ h. e)
is_nil_iff created (row ∷ rows) e = (λ h. absurd (cc), λ h. absurd (cc))

module _ (c : WriteContext) (raw_input : RawJobInput) (job : CanonicalJob)
    (source_platform external_id : String) where
  -- The rows of the two identities, before and after.
  abbrev pub raws : Tables → List RawJob
  raws tables = keep (is_raw raw_input.source_platform raw_input.external_id) tables.raw_jobs

  abbrev pub normals : Tables → List NormalizedJob
  normals tables = keep (is_normalized job.platform job.external_job_id) tables.normalized_jobs

  abbrev raws_after : Tables → List RawJob
  raws_after tables =
      changed_or_new (raw_row c.hash c.raw_id c.now raw_input) (changed_raw c.hash c.now raw_input)
        (raws tables)

  -- The normalised row refers to the raw row.
  abbrev normals_after : Tables → List NormalizedJob
  normals_after tables =
      let raw_job_id = raw_id_at (first (raws_after tables)) in
      changed_or_new (normalized_row c.normalized_id raw_job_id job)
        (changed_normalized raw_job_id job) (normals tables)

  abbrev BothWritten : (raw_created normalized_created : Bool) (before after : Tables) → Type 0
  BothWritten raw_created normalized_created before after =
      (raws after ≡ raws_after before)
      × (normals after ≡ normals_after before)
      × (raw_created ≡ is_nil (raws before))
      × (normalized_created ≡ is_nil (normals before))
      × (keep (is_raw source_platform external_id) after.raw_jobs
          ≡ keep (is_raw source_platform external_id) before.raw_jobs)
      × (keep (is_normalized source_platform external_id) after.normalized_jobs
          ≡ keep (is_normalized source_platform external_id) before.normalized_jobs)

  write_tables-BothWritten :
      (tables : Tables)
      → length (raws tables) ≤ 1
      → length (normals tables) ≤ 1
      → same_pair raw_input.source_platform raw_input.external_id source_platform external_id
        ≡ false
      → same_pair job.platform job.external_job_id source_platform external_id ≡ false
      → let (raw_created, normalized_created, after) = write_tables c raw_input job tables in
        BothWritten raw_created normalized_created tables after
  unfolding write_tables upsert_raw_job upsert_normalized_job
  write_tables-BothWritten tables one_raw one_normal other_raw other_normal =
      let is = is_raw raw_input.source_platform raw_input.external_id in
      let new = raw_row c.hash c.raw_id c.now raw_input in
      let change = changed_raw c.hash c.now raw_input in
      let reference = upsert_where-get is new change tables.raw_jobs in
      let raw =
        upsert_raw_job-one_row c.hash c.raw_id c.now raw_input tables.raw_jobs source_platform
          external_id one_raw other_raw in
      let normal =
        upsert_normalized_job-one_row c.normalized_id (raw_id_at (first (raws_after tables))) job
          tables.normalized_jobs source_platform external_id one_normal other_normal in
      rw reference (raw.0, normal.0, raw.1, normal.1, raw.2, normal.2)

  -- The rows of the identity and the others, after a write.
  abbrev pub IsWritten : (raw_created normalized_created : Bool) (before after : Tables) → Type 0
  IsWritten raw_created normalized_created before after =
      All (HoldsInput c raw_input job) (raws after)
      × (map (λ row. row.id) (raws after) ≡ kept_id (map (λ row. row.id) (raws before)) c.raw_id)
      × All (HoldsJob c raw_input job) (normals after)
      × (map (λ row. row.id) (normals after)
          ≡ kept_id (map (λ row. row.id) (normals before)) c.normalized_id)
      × (map (λ row. row.raw_job_id) (normals after) ≡ map (λ row. some row.id) (raws after))
      × ((raw_created ≡ true) ↔ (raws before ≡ []))
      × ((normalized_created ≡ true) ↔ (normals before ≡ []))
      × (keep (is_raw source_platform external_id) after.raw_jobs
          ≡ keep (is_raw source_platform external_id) before.raw_jobs)
      × (keep (is_normalized source_platform external_id) after.normalized_jobs
          ≡ keep (is_normalized source_platform external_id) before.normalized_jobs)

  BothWritten-IsWritten :
      (raw_created normalized_created : Bool) (before after : Tables)
      → BothWritten raw_created normalized_created before after
      → IsWritten raw_created normalized_created before after
  BothWritten-IsWritten raw_created normalized_created before after b =
      let raw = raws-columns c raw_input job (raws before) in
      let normal =
        normals-columns c raw_input job (raw_id_at (first (raws_after before))) (normals before) in
      (
        subst (All (HoldsInput c raw_input job)) (sym b.0) raw.0,
        ap (map (λ row. row.id)) b.0 ∙ raw.1,
        subst (All (HoldsJob c raw_input job)) (sym b.1) normal.0,
        ap (map (λ row. row.id)) b.1 ∙ normal.1,
        ap (map (λ row. row.raw_job_id)) b.1
            ∙ normal.2
            ∙ sym (ap (map (λ row. some row.id)) b.0 ∙ raw.2),
        is_nil_iff raw_created (raws before) b.2,
        is_nil_iff normalized_created (normals before) b.3,
        b.4,
        b.5,
      )

  -- What a write leaves, for its result.
  abbrev pub Written : Session → WriteResult → Session → Type 0
  Written before persist_error after =
      (c.raises ≡ true) × (after.current ≡ before.committed) × (after.committed ≡ before.committed)
  Written before (written raw_created normalized_created) after =
      (c.raises ≡ false)
      × IsWritten raw_created normalized_created before.current after.current
      × (after.committed ≡ (if before.in_transaction then before.committed else after.current))

  conclude_write-Written :
      (raises in_transaction : Bool) (session : Session) (both : Bool × Bool × Tables)
      → c.raises ≡ raises
      → session.in_transaction ≡ in_transaction
      → BothWritten both.0 both.1 session.current both.2
      → let (result, after) = conclude_write raises in_transaction both session in
        Written session result after
  unfolding rollback
  conclude_write-Written true in_transaction session (r, n, tables) e f b = (e, refl, refl)
  conclude_write-Written false true session (r, n, tables) e f b =
      (e, BothWritten-IsWritten r n session.current tables b, simp f)
  conclude_write-Written false false session (r, n, tables) e f b =
      (e, BothWritten-IsWritten r n session.current tables b, simp f)

  -- Where each table has at most one row of the job's identity, `write_job` writes all or nothing. If a
  -- statement raises, it reports the error and the session is back at the last commit. Otherwise each
  -- table has exactly one row of the identity, with the values that were given and the identifier of the
  -- row that was there, or the new one if there was none, which the result says; the normalised row
  -- refers to the raw one's identifier; the rows of any other identity are the same as
  -- before; and all is committed unless the caller's transaction is still open.
  pub write_job-Written :
      (session : Session)
      → length (raws session.current) ≤ 1
      → length (normals session.current) ≤ 1
      → same_pair raw_input.source_platform raw_input.external_id source_platform external_id
        ≡ false
      → same_pair job.platform job.external_job_id source_platform external_id ≡ false
      → let (result, after) = write_job c raw_input job session in Written session result after
  unfolding write_job
  write_job-Written session one_raw one_normal other_raw other_normal =
      conclude_write-Written c.raises session.in_transaction session
        (write_tables c raw_input job session.current) refl refl
        (write_tables-BothWritten session.current one_raw one_normal other_raw other_normal)
