-- ===== src/Prelude/Text.antt =====
-- Texts as lists of code points, for the code that searches in them.
use Prim.Native.Nat.{ℕ, zero, suc, ◌+◌, ◌/◌, ◌%◌}
use Prim.Native.Char.{code}
use Prim.Native.String.{String, ◌++◌}
use mathlib.Core.Option
use mathlib.Core.Option.{Option, none, some}
use mathlib.Core.Path.{◌≡◌, refl}
use mathlib.Core.Bool.{Bool, true, false, ◌&&◌, ◌||◌}
use mathlib.Core.List.{List, [], ◌∷◌}
use bisakerja_scraper.Prelude.Tests.{◌==◌, ltb, if◌then◌else◌, same_text}

abbrev pub codes : String → List ℕ
codes String.[] = []
codes (String.◌∷◌ c s) = code c ∷ codes s

-- `text.startswith(prefix)`
abbrev pub is_prefix : List ℕ → List ℕ → Bool
is_prefix [] text = true
is_prefix (c ∷ prefix) [] = false
is_prefix (c ∷ prefix) (d ∷ text) = c == d && is_prefix prefix text

-- `needle in text`
abbrev pub occurs_in : List ℕ → List ℕ → Bool
occurs_in needle [] = is_prefix needle []
occurs_in needle (c ∷ text) = is_prefix needle (c ∷ text) || occurs_in needle text

abbrev digit : ℕ → String
digit n =
    if n == 0
    then "0"
    else if n == 1
    then "1"
    else if n == 2
    then "2"
    else if n == 3
    then "3"
    else if n == 4
    then "4"
    else if n == 5
    then "5"
    else if n == 6
    then "6"
    else if n == 7
    then "7"
    else if n == 8
    then "8"
    else "9"

-- `str(n)` of a natural number; `n + 1` rounds are more than its digits.
show_from : ℕ → ℕ → String
show_from zero n = ""
show_from (suc fuel) n =
    let front = show_from fuel (n / 10) in if ltb n 10 then digit n else front ++ digit (n % 10)

unfoldable pub show : ℕ → String
unfolding show_from
show n = show_from (n + 1) n

show_404 : show 404 ≡ "404"
unfolding show
show_404 = refl

-- `text.removesuffix(suffix)` where `text.endswith(suffix)`, and `none` where it does not.
unfoldable pub strip_suffix : String → String → Option String
strip_suffix suffix String.[] = if same_text String.[] suffix then some String.[] else none
strip_suffix suffix (String.◌∷◌ c text) =
    if same_text (String.◌∷◌ c text) suffix
    then some String.[]
    else Option.map (λ front. String.◌∷◌ c front) (strip_suffix suffix text)

-- `a + b` of two texts, for files that also append lists.
abbrev pub join_text : String → String → String
join_text a b = a ++ b

-- `text in texts`
abbrev pub member : String → List String → Bool
member text [] = false
member text (t ∷ texts) = same_text text t || member text texts
