-- ===== src/Base/Counts.antt =====
-- Lists of ids as multisets: how often an id stands in a list, and taking one out.
use Prim.Native.Nat.{ℕ, ◌+◌, ◌≤◌}
use mathlib.Core.Path.{◌≡◌, refl}
use mathlib.Core.Logic.{inl, inr}
use mathlib.Core.Bool.{true}
use mathlib.Core.List.{List, [], ◌∷◌, ◌++◌}
use native.Mathlib.Omega.{arith}
use nightpass.Base.Tests.{◌==◌, if◌then◌else◌, Bool-cases}
use nightpass.Base.Lists.{any}

-- How often the id stands in the list.
abbrev pub count : ℕ → List ℕ → ℕ
count id [] = 0
count id (j ∷ js) = (if j == id then 1 else 0) + count id js

-- `ids.delete(id)`
unfoldable pub drop_id : ℕ → List ℕ → List ℕ
drop_id id [] = []
drop_id id (j ∷ js) = let rest = drop_id id js in if j == id then js else j ∷ rest

pub count-append : (id : ℕ) (js ks : List ℕ) → count id (js ++ ks) ≡ count id js + count id ks
count-append id [] ks = omega arith
count-append id (j ∷ js) ks = omega (arith, count-append id js ks)

pub count-drop_id :
    (id m : ℕ) (js : List ℕ)
    → any (λ j. j == m) js ≡ true
    → (if m == id then 1 else 0) + count id (drop_id m js) ≡ count id js
unfolding drop_id
count-drop_id id m [] h = absurd (cc)
count-drop_id id m (j ∷ js) h = elim (Bool-cases (j == m)) [
  | inl e ↦ let same : j ≡ m = ground arith in rw (e, same) refl
  | inr e ↦
      let later : any (λ j. j == m) js ≡ true = ground arith in
      rw e (omega (arith, count-drop_id id m js later))
]

pub count-drop_id_le : (id m : ℕ) (js : List ℕ) → count id (drop_id m js) ≤ count id js
unfolding drop_id
count-drop_id_le id m [] = omega arith
count-drop_id_le id m (j ∷ js) = ground (arith, count-drop_id_le id m js)
