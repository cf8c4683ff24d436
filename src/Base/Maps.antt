-- ===== src/Base/Maps.antt =====
-- A JavaScript `Map` with text keys as a list of entries: `set` replaces in place or appends.
use mathlib.Core.Path.{◌≡◌, refl}
use mathlib.Core.Option.{Option, none, some}
use mathlib.Core.List.{List, [], ◌∷◌}
use native.Mathlib.Omega.{arith}
use nightpass.Base.Tests.{if◌then◌else◌}
use nightpass.Base.Texts.{Text, text_eq, text_eq_iff}

abbrev pub TextMap {ℓ} : Type ℓ → Type ℓ
TextMap V = List (Text × V)

module _ {ℓ} {V : Type ℓ} where
  -- `m.get(k)`
  unfoldable pub lookup : Text → TextMap V → Option V
  lookup k [] = none
  lookup k (entry ∷ m) = if text_eq entry.0 k then some entry.1 else lookup k m

  -- `m.set(k, v)`
  unfoldable pub insert : Text → V → TextMap V → TextMap V
  insert k v [] = (k, v) ∷ []
  insert k v (entry ∷ m) = if text_eq entry.0 k then (entry.0, v) ∷ m else entry ∷ insert k v m

  -- `m.delete(k)`
  unfoldable pub remove : Text → TextMap V → TextMap V
  remove k [] = []
  remove k (entry ∷ m) =
      let others = remove k m in if text_eq entry.0 k then others else entry ∷ others

  pub lookup-insert :
      (k j : Text) (v : V) (m : TextMap V)
      → lookup j (insert k v m) ≡ (if text_eq k j then some v else lookup j m)
  unfolding lookup insert
  lookup-insert k j v [] = refl
  lookup-insert k j v ((i, w) ∷ m) =
      ground (arith, text_eq_iff k j, text_eq_iff i k, text_eq_iff i j, lookup-insert k j v m)

  pub lookup-remove :
      (k j : Text) (m : TextMap V)
      → lookup j (remove k m) ≡ (if text_eq k j then none else lookup j m)
  unfolding lookup remove
  lookup-remove k j [] = ground arith
  lookup-remove k j ((i, w) ∷ m) =
      ground (arith, text_eq_iff k j, text_eq_iff i k, text_eq_iff i j, lookup-remove k j m)
