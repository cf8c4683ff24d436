-- ===== src/Base/Splits.antt =====
-- `trim`, `split` on a character, and environment variables.
use Prim.Native.Nat.{ℕ}
use mathlib.Core.Path.{◌≡◌, refl, ap}
use mathlib.Core.Bool.{Bool, ◌&&◌}
use mathlib.Core.Option.{Option, none, some}
use mathlib.Core.List.{List, [], ◌∷◌, ◌++◌}
use native.Mathlib.Omega.{arith}
use nightpass.Base.Tests.{◌==◌, if◌then◌else◌}
use nightpass.Base.Lists.{All}
use nightpass.Base.Texts.{Text, Lacks, join, is_empty, truthy}
use nightpass.Base.Patterns.{is_space, skip_spaces}

-- The text without the characters of the class at its end.
unfoldable pub drop_end : (ℕ → Bool) → Text → Text
drop_end p [] = []
drop_end p (c ∷ s) = let rest = drop_end p s in if is_empty rest && p c then [] else c ∷ rest

-- `s.trim()`
unfoldable pub trim : Text → Text
unfolding drop_end skip_spaces
trim s = drop_end is_space (skip_spaces s)

abbrev pub push_front : ℕ → List Text → List Text
push_front c [] = (c ∷ []) ∷ []
push_front c (t ∷ ts) = (c ∷ t) ∷ ts

-- `s.split(b)`
unfoldable pub split_on : ℕ → Text → List Text
split_on b [] = [] ∷ []
split_on b (c ∷ s) = let rest = split_on b s in if c == b then [] ∷ rest else push_front c rest

pub split_on-Lacks : (b : ℕ) (s : Text) → Lacks b s → split_on b s ≡ s ∷ []
unfolding split_on
split_on-Lacks b [] h = refl
split_on-Lacks b (c ∷ s) (differs, h) = ground (arith, split_on-Lacks b s h)

pub split_on-append :
    (b : ℕ) (s t : Text) → Lacks b s → split_on b (s ++ (b ∷ t)) ≡ s ∷ split_on b t
unfolding split_on
split_on-append b [] t h = ground arith
split_on-append b (c ∷ s) t (differs, h) = ground (arith, split_on-append b s t h)

-- Splitting joined parts that lack the separator gives them back.
pub split_on-join :
    (b : ℕ) (s : Text) (ts : List Text)
    → All (Lacks b) (s ∷ ts)
    → split_on b (join (b ∷ []) (s ∷ ts)) ≡ s ∷ ts
unfolding join
split_on-join b s [] (h, _) = split_on-Lacks b s h
split_on-join b s (t ∷ ts) (h, rest) =
    rw (split_on-append b s (join (b ∷ []) (t ∷ ts)) h) (ap (◌∷◌ s) (split_on-join b t ts rest))

-- `s.split(b).map(trim).filter(Boolean)`
unfoldable pub fields_of : ℕ → Text → List Text
unfolding split_on
fields_of b s = kept (split_on b s)
  where
    kept : List Text → List Text
    kept [] = []
    kept (t ∷ ts) = let rest = kept ts in if is_empty (trim t) then rest else trim t ∷ rest

-- `process.env`
abbrev pub Env : Type 0
Env = Text → Option Text

-- `process.env[name]?.trim()`, where "" is falsy
unfoldable pub variable : Env → Text → Option Text
unfolding trim
variable env name = elim (env name) [ none ↦ none | some s ↦ truthy (some (trim s)) ]
