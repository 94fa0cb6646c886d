-- ===== src/Base/Maps.antt =====
-- `HashMap<String, V>` as an association list, in the order in which the map is iterated. `insert`
-- replaces the value of a key that is there.
use Prim.Native.String.{String}
use mathlib.Core.Path.{◌≡◌, refl, subst}
use mathlib.Core.Logic.{inl, inr}
use mathlib.Core.List.{List, [], ◌∷◌}
use mathlib.Core.Option.{Option, none, some}
use native.Mathlib.Omega.{arith}
use text.Mathlib.Text.{◌==◌}
use text.Mathlib.TextEquality.{eq_iff}
use pmu_data_analytics.Base.Tests.{if◌then◌else◌, Bool-cases}

module _ {ℓ} {V : Type ℓ} where
  unfoldable pub lookup : String → List (String × V) → Option V
  lookup key [] = none
  lookup key ((name, value) ∷ entries) = if name == key then some value else lookup key entries

  unfoldable pub insert : String → V → List (String × V) → List (String × V)
  insert key fresh [] = (key, fresh) ∷ []
  insert key fresh ((name, value) ∷ entries) =
      let later = insert key fresh entries in
      if name == key then (key, fresh) ∷ entries else (name, value) ∷ later

  -- A lookup sees the inserted value at its key, and the old entries elsewhere.
  pub lookup-insert :
      (key other : String) (fresh : V) (entries : List (String × V))
      → lookup other (insert key fresh entries)
        ≡ (if key == other then some fresh else lookup other entries)
  unfolding lookup insert
  lookup-insert key other fresh [] = refl
  lookup-insert key other fresh ((name, value) ∷ entries) = ground (
    arith,
    lookup-insert key other fresh entries,
    eq_iff key other,
    eq_iff name key,
    eq_iff name other,
  )

  -- Every value of a map.
  abbrev pub Entries {κ} : (V → Type κ) → List (String × V) → Type κ
  Entries P [] = Unit
  Entries P ((name, value) ∷ entries) = P value × Entries P entries

  pub Entries-lookup {κ} :
      (P : V → Type κ) (key : String) (entries : List (String × V)) (found : V)
      → Entries P entries
      → lookup key entries ≡ some found
      → P found
  unfolding lookup
  Entries-lookup P key [] found h e = cc
  Entries-lookup P key ((name, value) ∷ entries) found h e = elim (Bool-cases (name == key)) [
    | inl same ↦
        let there : some value ≡ some found = rw same at e in
        let equal : value ≡ found = cc in subst P equal h.0
    | inr other ↦ Entries-lookup P key entries found h.1 (rw other at e)
  ]

  pub Entries-insert {κ} :
      (P : V → Type κ) (key : String) (fresh : V) (entries : List (String × V))
      → P fresh
      → Entries P entries
      → Entries P (insert key fresh entries)
  unfolding insert
  Entries-insert P key fresh [] p h = (p, tt)
  Entries-insert P key fresh ((name, value) ∷ entries) p h = elim (Bool-cases (name == key)) [
    | inl same ↦ rw same (p, h.1)
    | inr other ↦ rw other (h.0, Entries-insert P key fresh entries p h.1)
  ]

  -- What holds of every value, from something weaker.
  pub Entries-map {κ μ} :
      (P : V → Type κ) (Q : V → Type μ) (entries : List (String × V))
      → ((value : V) → P value → Q value)
      → Entries P entries
      → Entries Q entries
  Entries-map P Q [] f h = tt
  Entries-map P Q ((name, value) ∷ entries) f h = (f value h.0, Entries-map P Q entries f h.1)
