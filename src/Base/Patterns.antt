-- ===== src/Base/Patterns.antt =====
-- The regular expressions with which error messages are classified, as tests on texts.
use Prim.Native.Nat.{ℕ}
use mathlib.Core.Bool.{Bool, true, false, not, ◌&&◌, ◌||◌}
use mathlib.Core.Option.{Option, none, some}
use mathlib.Core.List.{[], ◌∷◌}
use nightpass.Base.Tests.{leb, ◌==◌, if◌then◌else◌}
use nightpass.Base.Texts.{Text, is_digit}

-- \w
abbrev pub is_word : ℕ → Bool
is_word c = is_digit c || (leb b'a' c && leb c b'z') || (leb b'A' c && leb c b'Z') || c == b'_'

-- The text behind the prefix, if it is one.
unfoldable pub after_prefix : Text → Text → Option Text
after_prefix [] s = some s
after_prefix (a ∷ p) [] = none
after_prefix (a ∷ p) (c ∷ s) = if a == c then after_prefix p s else none

abbrev pub ends_word : Option Text → Bool
ends_word none = false
ends_word (some []) = true
ends_word (some (c ∷ s)) = not (is_word c)

abbrev pub ends_digits : Option Text → Bool
ends_digits none = false
ends_digits (some []) = true
ends_digits (some (c ∷ s)) = not (is_digit c)

abbrev pub found : Option Text → Bool
found none = false
found (some s) = true

-- /p/
unfoldable pub contains : Text → Text → Bool
unfolding after_prefix
contains p [] = found (after_prefix p [])
contains p (c ∷ s) = found (after_prefix p (c ∷ s)) || contains p s

-- /\bp\b/, where `p` begins and ends with word characters; `inside` says whether the character in
-- front is one.
unfoldable pub contains_word_from : Bool → Text → Text → Bool
unfolding after_prefix
contains_word_from inside p [] = not inside && ends_word (after_prefix p [])
contains_word_from inside p (c ∷ s) =
    (not inside && ends_word (after_prefix p (c ∷ s))) || contains_word_from (is_word c) p s

unfoldable pub contains_word : Text → Text → Bool
unfolding contains_word_from
contains_word p s = contains_word_from false p s

abbrev pub is_space : ℕ → Bool
is_space c =
    c == 32
    || (leb 9 c && leb c 13)
    || c == 160
    || c == 5760
    || (leb 8192 c && leb c 8202)
    || c == 8232
    || c == 8233
    || c == 8239
    || c == 8287
    || c == 12288
    || c == 65279

-- \s*
unfoldable pub skip_spaces : Text → Text
skip_spaces [] = []
skip_spaces (c ∷ s) = if is_space c then skip_spaces s else c ∷ s

abbrev pub after_option : Text → Option Text → Option Text
after_option p none = none
after_option p (some s) = after_prefix p s

abbrev pub skip_option : Option Text → Option Text
skip_option none = none
skip_option (some s) = some (skip_spaces s)

-- `->\s*HTTP ` and then the code, with no further digit
unfoldable pub reports_http_here : Text → Text → Text → Text → Bool
unfolding after_prefix skip_spaces
reports_http_here arrow http code s =
    ends_digits (after_option code (after_option http (skip_option (after_prefix arrow s))))

unfoldable pub reports_http : Text → Text → Text → Text → Bool
unfolding reports_http_here
reports_http arrow http code [] = false
reports_http arrow http code (c ∷ s) =
    reports_http_here arrow http code (c ∷ s) || reports_http arrow http code s
