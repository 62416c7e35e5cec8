-- ===== src/Persistence/Pages.antt =====
-- The pages of `list_jobs`.
use mathlib.Core.List.{Perm}
use bisakerja_scraper.Prelude.{
  ℕ, zero, suc, ◌+◌, ◌-◌, ◌*◌, ◌≤◌, ◌≡◌, ◌∙◌, refl, sym, ap, List, [], ◌∷◌, ◌++◌, length, take,
  drop, keep, arith,
}
use bisakerja_scraper.Prelude.Sort.{sort_by-perm, sort_by-length}
use bisakerja_scraper.Models.{NormalizedJob}
use bisakerja_scraper.Persistence.{
  Database, JobListFilters, passes, comes_first, ordered, list_jobs,
}

-- The jobs of the first pages, one page after the other.
abbrev pub joined_pages :
    Database → JobListFilters → (pages limit : ℕ) → List NormalizedJob → List NormalizedJob
joined_pages d filters zero limit table = []
joined_pages d filters (suc pages) limit table =
    joined_pages d filters pages limit table ++ (list_jobs d filters (suc pages) limit table).jobs

take_nil : {A : Type 0} (n : ℕ) → take {A = A} n [] ≡ []
take_nil zero = refl
take_nil (suc n) = refl

take_add : {A : Type 0} (m n : ℕ) (xs : List A) → take m xs ++ take n (drop m xs) ≡ take (m + n) xs
take_add zero n xs = let e : n ≡ 0 + n = omega arith in ap (λ k. take k xs) e
take_add (suc m) n [] =
    let e : suc (m + n) ≡ suc m + n = omega arith in take_nil n ∙ ap (λ k. take k []) e
take_add (suc m) n (x ∷ xs) =
    let e : suc (m + n) ≡ suc m + n = omega arith in
    ap (λ rest. x ∷ rest) (take_add m n xs) ∙ ap (λ k. take k (x ∷ xs)) e

take_all : {A : Type 0} (n : ℕ) (xs : List A) → length xs ≤ n → take n xs ≡ xs
take_all zero [] h = refl
take_all zero (x ∷ xs) h = absurd (omega arith)
take_all (suc n) [] h = refl
take_all (suc n) (x ∷ xs) h = ap (λ rest. x ∷ rest) (take_all n xs (omega arith))

joined_pages-take :
    (d : Database) (filters : JobListFilters) (pages limit : ℕ) (table : List NormalizedJob)
    → joined_pages d filters pages limit table
      ≡ take (pages * limit) (ordered d (keep (passes d filters) table))
unfolding list_jobs
joined_pages-take d filters zero limit table =
    let e : 0 ≡ 0 * limit = omega arith in
    ap (λ k. take k (ordered d (keep (passes d filters) table))) e
joined_pages-take d filters (suc pages) limit table =
    let matches = ordered d (keep (passes d filters) table) in
    let e : suc pages - 1 ≡ pages = omega arith in
    let f : pages * limit + limit ≡ suc pages * limit = grind arith in
    rw (e, joined_pages-take d filters pages limit table, take_add (pages * limit) limit matches, f)
      refl

-- The pages of a listing, joined from the first one until they hold as many jobs as its total, are the
-- jobs that pass the filters, each as often as it is in the table; the total is the same on each page and is
-- their number.
pub joined_pages-perm :
    (d : Database) (filters : JobListFilters) (pages limit page : ℕ) (table : List NormalizedJob)
    → (list_jobs d filters page limit table).total ≤ pages * limit
    → Perm (joined_pages d filters pages limit table) (keep (passes d filters) table)
      × ((list_jobs d filters page limit table).total
          ≡ length (joined_pages d filters pages limit table))
unfolding list_jobs
joined_pages-perm d filters pages limit page table h =
    let matches = keep (passes d filters) table in
    let size = sort_by-length (comes_first d) matches in
    let all =
      joined_pages-take d filters pages limit table
      ∙ take_all (pages * limit) (ordered d matches) (omega (arith, size)) in
    rw all (sort_by-perm (comes_first d) matches, sym size)
