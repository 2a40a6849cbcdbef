-- ===== src/Base/Text.antt =====
-- Go strings as native texts, and `map[string]V` as an association list with one entry to a key.
use Prim.Native.String.{String, ◌++◌}
use text.Mathlib.Text.{◌==◌}
use text.Mathlib.TextEquality.{eq_iff}
use text.Mathlib.TextPositions.{eq_refl}
use mathlib.Core.Path.{◌≡◌, refl}
use mathlib.Core.Bool.{Bool, true, false}
use mathlib.Core.Logic.{◌↔◌, ◌≢◌, inl, inr}
use mathlib.Core.List.{List, [], ◌∷◌}
use mathlib.Core.Option.{Option, none, some}
use native.Mathlib.Omega.{arith}
use gpu_telemetry_pipeline.Base.Tests.{if◌then◌else◌, Bool-cases}

abbrev pub str_eq : String → String → Bool
str_eq s t = s == t

pub str_eq_iff : (s t : String) → (str_eq s t ≡ true) ↔ (s ≡ t)
str_eq_iff = eq_iff

pub str_eq_refl : (s : String) → str_eq s s ≡ true
str_eq_refl = eq_refl

pub str_eq_of_ne : (s t : String) → s ≢ t → str_eq s t ≡ false
str_eq_of_ne s t h = elim (Bool-cases (str_eq s t)) [
  | inl e ↦ absurd (h ((str_eq_iff s t).0 e))
  | inr e ↦ e
]

-- The parts of a text, one after the other: `fmt.Sprintf` with `%s` only, and Go's `+`.
abbrev pub concat : List String → String
concat [] = ""
concat (s ∷ r) = s ++ concat r

abbrev pub Dict {ℓ} : Type ℓ → Type ℓ
Dict V = List (String × V)

module _ {ℓ} {V : Type ℓ} where
  -- `m[key]`.
  unfoldable pub lookup : String → Dict V → Option V
  lookup key [] = none
  lookup key (entry ∷ entries) = if str_eq entry.0 key then some entry.1 else lookup key entries

  -- `m[key] = value`: the entry of the key keeps its place.
  unfoldable pub insert : String → V → Dict V → Dict V
  insert key value [] = (key, value) ∷ []
  insert key value (entry ∷ entries) =
      if str_eq entry.0 key then (key, value) ∷ entries else entry ∷ insert key value entries

  -- `delete(m, key)`.
  unfoldable pub delete : String → Dict V → Dict V
  delete key [] = []
  delete key (entry ∷ entries) =
      if str_eq entry.0 key then delete key entries else entry ∷ delete key entries

  pub lookup-insert :
      (key other : String) (value : V) (entries : Dict V)
      → lookup other (insert key value entries)
        ≡ (if str_eq key other then some value else lookup other entries)
  unfolding insert lookup
  lookup-insert key other value [] = refl
  lookup-insert key other value (entry ∷ entries) = ground (
    arith,
    lookup-insert key other value entries,
    str_eq_iff entry.0 key,
    str_eq_iff entry.0 other,
    str_eq_iff key other,
  )

  pub lookup-delete :
      (key other : String) (entries : Dict V)
      → lookup other (delete key entries)
        ≡ (if str_eq key other then none else lookup other entries)
  unfolding delete lookup
  lookup-delete key other [] = ground arith
  lookup-delete key other (entry ∷ entries) = ground (
    arith,
    lookup-delete key other entries,
    str_eq_iff entry.0 key,
    str_eq_iff entry.0 other,
    str_eq_iff key other,
  )
