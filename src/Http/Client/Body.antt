-- ===== src/Http/Client/Body.antt =====
-- The bounded read of a response.
use bisakerja_scraper.Prelude.{
  ℕ, ◌+◌, ◌≤◌, ◌≡◌, none, some, true, false, List, [], ◌∷◌, ◌++◌, arith, ltb, length, inl, inr,
  Bool-cases, if◌then◌else◌, length-append,
}
use mathlib.Core.List.{append_assoc, append-nil}
use bisakerja_scraper.Http.Client.{Bytes, read_bounded}

-- All chunks, joined.
abbrev pub joined : List Bytes → Bytes
joined [] = []
joined (chunk ∷ chunks) = chunk ++ joined chunks

read_bounded_from :
    (limit total : ℕ) (body : Bytes) (chunks : List Bytes)
    → total ≤ limit
    → read_bounded limit total body chunks
      ≡ (if ltb limit (total + length (joined chunks)) then none else some (body ++ joined chunks))
unfolding read_bounded
read_bounded_from limit total body [] h =
    let fits : ltb limit (total + 0) ≡ false = ground arith in rw (fits, append-nil)
read_bounded_from limit total body (chunk ∷ chunks) h =
    let size = length-append chunk (joined chunks) in
    elim (Bool-cases (ltb limit (total + length chunk))) [
      | inl over ↦
          let whole : ltb limit (total + length (chunk ++ joined chunks)) ≡ true =
            ground (arith, size) in
          rw (over, whole)
      | inr under ↦
          let same : total + length (chunk ++ joined chunks)
              ≡ total + length chunk + length (joined chunks) =
            omega (arith, size) in
          rw (
            under,
            same,
            read_bounded_from limit (total + length chunk) (body ++ chunk) chunks (ground arith),
            append_assoc,
          )
    ]

-- `_read_bounded` gives the whole body, all chunks joined, if their total size is at most the
-- limit, and the size limit's error otherwise.
pub read_bounded_lem :
    (limit : ℕ) (chunks : List Bytes)
    → read_bounded limit 0 [] chunks
      ≡ (if ltb limit (length (joined chunks)) then none else some (joined chunks))
read_bounded_lem limit chunks =
    let same : 0 + length (joined chunks) ≡ length (joined chunks) = omega arith in
    rw (← same) (read_bounded_from limit 0 [] chunks (omega arith))
