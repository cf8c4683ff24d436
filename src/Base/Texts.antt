-- ===== src/Base/Texts.antt =====
-- Text as a list of code points, for what the program takes apart: hexadecimal and decimal digits,
-- case, trimming. Case is that of ASCII, which is all that hexadecimal text has.
use Prim.Native.Nat.{ℕ, suc, ◌+◌}
use Prim.Native.Char.{code}
use Prim.Native.String.{String}
use mathlib.Core.Path.{◌≡◌, refl, ap, ap₂}
use mathlib.Core.Logic.{◌≢◌, ◌↔◌}
use mathlib.Core.Bool.{Bool, true, false, ◌&&◌, ◌||◌, and-eq-true_iff}
use mathlib.Core.Option.{Option, none, some}
use mathlib.Core.List.{List, [], ◌∷◌, ◌++◌}
use native.Mathlib.Omega.{arith}
use nightpass.Base.Tests.{leb, ◌==◌, ==_iff, if◌then◌else◌}
use nightpass.Base.Lists.{length, all, All}

abbrev pub Text : Type 0
Text = List ℕ

-- The code points of a literal.
abbrev pub codes : String → Text
codes String.[] = []
codes (String.◌∷◌ c s) = code c ∷ codes s

-- `a === b`
unfoldable pub text_eq : Text → Text → Bool
text_eq [] [] = true
text_eq (a ∷ s) (b ∷ t) = a == b && text_eq s t
text_eq _ _ = false

pub eq_of_text_eq : (s t : Text) → text_eq s t ≡ true → s ≡ t
unfolding text_eq
eq_of_text_eq [] [] h = refl
eq_of_text_eq [] (b ∷ t) h = cc
eq_of_text_eq (a ∷ s) [] h = cc
eq_of_text_eq (a ∷ s) (b ∷ t) h =
    let (here, rest) = (and-eq-true_iff _ _).0 h in
    ap₂ ◌∷◌ ((==_iff a b).0 here) (eq_of_text_eq s t rest)

pub text_eq_refl : (s : Text) → text_eq s s ≡ true
unfolding text_eq
text_eq_refl [] = refl
text_eq_refl (a ∷ s) = ground (arith, text_eq_refl s)

pub text_eq_iff : (s t : Text) → (text_eq s t ≡ true) ↔ (s ≡ t)
text_eq_iff s t = (eq_of_text_eq s t, λ e. rw e (text_eq_refl t))

-- Whether the text is "", which is falsy.
abbrev pub is_empty : Text → Bool
is_empty [] = true
is_empty (c ∷ s) = false

-- [0-9], [0-9a-f] and [0-9a-fA-F]
abbrev pub is_digit : ℕ → Bool
is_digit c = leb b'0' c && leb c b'9'

abbrev pub is_lower_hex : ℕ → Bool
is_lower_hex c = is_digit c || (leb b'a' c && leb c b'f')

abbrev pub is_hex : ℕ → Bool
is_hex c = is_lower_hex c || (leb b'A' c && leb c b'F')

-- One character of `toLowerCase`.
abbrev pub lower_char : ℕ → ℕ
lower_char c = if leb b'A' c && leb c b'Z' then c + 32 else c

-- `s.toLowerCase()`
unfoldable pub lower : Text → Text
lower [] = []
lower (c ∷ s) = lower_char c ∷ lower s

pub length-lower : (s : Text) → length (lower s) ≡ length s
unfolding lower
length-lower [] = refl
length-lower (c ∷ s) = ap suc (length-lower s)

pub lower_idem : (s : Text) → lower (lower s) ≡ lower s
unfolding lower
lower_idem [] = refl
lower_idem (c ∷ s) = ap₂ ◌∷◌ (ground arith) (lower_idem s)

-- /^[0-9a-fA-F]{64}$/ and /^[0-9a-f]{64}$/
unfoldable pub is_hex32 : Text → Bool
is_hex32 s = length s == 64 && all is_hex s

unfoldable pub is_lower_hex32 : Text → Bool
is_lower_hex32 s = length s == 64 && all is_lower_hex s

all-is_lower_hex-lower : (s : Text) → all is_hex s ≡ true → all is_lower_hex (lower s) ≡ true
unfolding lower
all-is_lower_hex-lower [] h = refl
all-is_lower_hex-lower (c ∷ s) h = ground (arith, all-is_lower_hex-lower s)

pub is_lower_hex32-lower : (s : Text) → is_hex32 s ≡ true → is_lower_hex32 (lower s) ≡ true
unfolding is_hex32 is_lower_hex32
is_lower_hex32-lower s h = ground (arith, length-lower s, all-is_lower_hex-lower s)

-- Text in which the character does not occur.
abbrev pub Lacks : ℕ → Text → Type 0
Lacks b = All (λ c. c ≢ b)

pub Lacks-all : (b : ℕ) (p : ℕ → Bool) (s : Text) → p b ≡ false → all p s ≡ true → Lacks b s
Lacks-all b p [] off h = tt
Lacks-all b p (c ∷ s) off h =
    let (here, rest) = (and-eq-true_iff (p c) (all p s)).0 h in
    ((λ e. cc (ap p e)), Lacks-all b p s off rest)

-- A separator that the first parts lack determines both parts.
pub split_unique :
    (b : ℕ) (s t u v : Text)
    → Lacks b s
    → Lacks b t
    → s ++ (b ∷ u) ≡ t ++ (b ∷ v)
    → (s ≡ t) × (u ≡ v)
split_unique b [] [] u v hs ht e = (refl, cc)
split_unique b [] (c ∷ t) u v hs (differs, ht) e = absurd (differs (cc))
split_unique b (c ∷ s) [] u v (differs, hs) ht e = absurd (differs (cc))
split_unique b (c ∷ s) (d ∷ t) u v (_, hs) (_, ht) e =
    let (here, rest) = split_unique b s t u v hs ht (cc) in (cc, rest)

-- The text of an optional string, where "" is falsy as an absent one is.
abbrev pub truthy : Option Text → Option Text
truthy none = none
truthy (some []) = none
truthy (some (c ∷ s)) = some (c ∷ s)

pub truthy-some : (o : Option Text) (t : Text) → truthy o ≡ some t → o ≡ some t
truthy-some none t h = h
truthy-some (some []) t h = ground arith
truthy-some (some (c ∷ s)) t h = h

-- `String(value ?? '')`
abbrev pub text_or_empty : Option Text → Text
text_or_empty none = []
text_or_empty (some s) = s

-- `parts.join(sep)`
unfoldable pub join : Text → List Text → Text
join sep [] = []
join sep (s ∷ []) = s
join sep (s ∷ t ∷ rest) = s ++ (sep ++ join sep (t ∷ rest))

-- `s.replace(/^0x/, '')`
unfoldable pub strip_0x : Text → Text
strip_0x (c ∷ d ∷ s) = if c == b'0' && d == b'x' then s else c ∷ d ∷ s
strip_0x s = s

-- `String(h ?? '').replace(/^0x/, '').toLowerCase()`
unfoldable pub norm : Option Text → Text
norm h = lower (strip_0x (text_or_empty h))
