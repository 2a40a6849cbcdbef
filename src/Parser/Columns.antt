-- ===== src/Parser/Columns.antt =====
-- Which column a name stands for after a header has been read.
use mathlib.Core.List.{cons-ne-nil}
use gpu_telemetry_pipeline.Base.{
  ℕ, suc, ◌+◌, String, ◌≡◌, ◌≢◌, ◌↔◌, refl, sym, ap, ◌∙◌, Option, none, some, List, [], ◌∷◌, arith,
  str_eq, if◌then◌else◌, Dict, lookup, insert, lookup-insert, All, All-map, inl, inr, Option-cases,
}
use gpu_telemetry_pipeline.Parser.{
  new_csv_parser, trim_space, index_columns, find_missing, required, parse_header,
}

-- The last column whose trimmed header is the name.
unfoldable pub find_last : String → List String → Option ℕ
find_last name [] = none
find_last name (col ∷ cols) = elim (find_last name cols) [
  | none ↦ if str_eq (trim_space col) name then some 0 else none
  | some i ↦ some (suc i)
]

abbrev shifted : ℕ → Option ℕ → Option ℕ → Option ℕ
shifted n none other = other
shifted n (some i) other = some (n + i)

shifted-zero : (o : Option ℕ) → shifted 0 o none ≡ o
shifted-zero none = refl
shifted-zero (some i) = ap some (omega arith)

lookup-index_columns :
    (n : ℕ) (cols : List String) (m : Dict ℕ) (name : String)
    → lookup name (index_columns n cols m) ≡ shifted n (find_last name cols) (lookup name m)
unfolding index_columns find_last
lookup-index_columns n [] m name = refl
lookup-index_columns n (col ∷ cols) m name =
    lookup-index_columns (n + 1) cols (insert (trim_space col) n m) name
    ∙ ground (arith, lookup-insert (trim_space col) name n m)

-- After a fresh parser has read a header, each name stands for the last column of that name, its
-- spaces trimmed, and for none where the header has no such column; so of a repeated header the
-- last one counts.
pub lookup-parse_header :
    (header : List String) (name : String)
    → lookup name (parse_header new_csv_parser header).1.header_map ≡ find_last name header
unfolding parse_header new_csv_parser find_last lookup
lookup-parse_header [] name = refl
lookup-parse_header (col ∷ cols) name =
    lookup-index_columns 0 (col ∷ cols) [] name ∙ shifted-zero (find_last name (col ∷ cols))

-- Where the map has all the names, and only there, none is missing.
find_missing_iff :
    (cols : List String) (m : Dict ℕ)
    → (find_missing cols m ≡ none) ↔ All (λ col. lookup col m ≢ none) cols
unfolding find_missing
find_missing_iff [] m = (λ e. tt, λ a. refl)
find_missing_iff (col ∷ cols) m = elim (Option-cases (lookup col m)) [
  | inl e ↦ (λ h. absurd (ground (arith, e, h)), λ a. absurd (a.0 e))
  | inr (i, e) ↦
      let (there, back) = find_missing_iff cols m in
      (λ h. (ground (arith, e), there (ground (arith, e, h))), λ a. ground (arith, e, back a.1))
]

-- A fresh parser accepts a header exactly when it is not empty and each required name is among its
-- columns, spaces trimmed.
pub parse_header_iff :
    (header : List String)
    → ((parse_header new_csv_parser header).0 ≡ none)
      ↔ ((header ≢ []) × All (λ col. find_last col header ≢ none) required)
parse_header_iff [] = unfold parse_header in (λ h. cc, λ a. absurd (a.0 refl))
parse_header_iff (col ∷ cols) =
    let m : Dict ℕ = (parse_header new_csv_parser (col ∷ cols)).1.header_map in
    let same = lookup-parse_header (col ∷ cols) in
    let (there, back) = find_missing_iff required m in
    (
      λ h. (
        λ e. cons-ne-nil col cols e,
        All-map {P = λ name. lookup name m ≢ none} {Q = λ name. find_last name (col ∷ cols) ≢ none}
            required (λ (name : String) present gone. present (same name ∙ gone))
            (there (unfold parse_header in h)),
      ),
      λ a.
          unfold parse_header in
          back (
            All-map {P = λ name. find_last name (col ∷ cols) ≢ none}
              {Q = λ name. lookup name m ≢ none} required
              (λ (name : String) present gone. present (sym (same name) ∙ gone)) a.1),
    )
