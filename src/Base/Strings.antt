-- ===== src/Base/Strings.antt =====
-- Python's string methods on code points, for the texts that the services compare: case and white
-- space are those of ASCII.
use cyber.Base.Tests.{if◌then◌else◌, ltb, leb, ◌==◌}
use cyber.Base.Lists.{Text, nat_eq, contains, Comparable}
use mathlib.Core.Logic.{◌↔◌}
use Prim.Native.Nat.{ℕ, zero, suc, ◌+◌, ◌/◌, ◌%◌}
use mathlib.Core.Path.{◌≡◌, refl}
use native.Mathlib.Omega.{arith}
use mathlib.Core.Bool.{Bool, true, false, ◌&&◌, ◌||◌}
use mathlib.Core.List.{List, [], ◌∷◌}

-- `s == t`
abbrev pub text_same : Text → Text → Bool
text_same [] [] = true
text_same [] (d ∷ t) = false
text_same (c ∷ s) [] = false
text_same (c ∷ s) (d ∷ t) = c == d && text_same s t

-- `s.startswith(prefix)`
abbrev pub starts_with : Text → Text → Bool
starts_with s [] = true
starts_with [] (d ∷ prefix) = false
starts_with (c ∷ s) (d ∷ prefix) = c == d && starts_with s prefix

-- `s.endswith(suffix)`
abbrev pub ends_with : Text → Text → Bool
ends_with [] suffix = text_same [] suffix
ends_with (c ∷ s) suffix = text_same (c ∷ s) suffix || ends_with s suffix

-- `part in s`
abbrev pub occurs_in : Text → Text → Bool
occurs_in part [] = starts_with [] part
occurs_in part (c ∷ s) = starts_with (c ∷ s) part || occurs_in part s

-- `s.lower()`
abbrev pub lower : Text → Text
lower [] = []
lower (c ∷ s) = (if leb 65 c && leb c 90 then c + 32 else c) ∷ lower s

-- `c.isspace()`
abbrev pub is_space : ℕ → Bool
is_space c = c == 32 || (leb 9 c && leb c 13) || (leb 28 c && leb c 31)

abbrev pub strip_left : Text → Text
strip_left [] = []
strip_left (c ∷ s) = let rest = strip_left s in if is_space c then rest else c ∷ s

-- Without the white space at the end.
abbrev pub strip_right : Text → Text
strip_right [] = []
strip_right (c ∷ s) = elim (strip_right s) [
  | [] ↦ if is_space c then [] else c ∷ []
  | d ∷ rest ↦ c ∷ d ∷ rest
]

-- `s.strip()`
abbrev pub strip : Text → Text
strip s = strip_right (strip_left s)

-- `s in {...}`, among a set of texts
abbrev pub one_of : Text → List Text → Bool
one_of s [] = false
one_of s (t ∷ ts) = text_same s t || one_of s ts

-- `s.lstrip(chars)`
abbrev pub lstrip : List ℕ → Text → Text
lstrip chars [] = []
lstrip chars (c ∷ s) = let rest = lstrip chars s in if contains c chars then rest else c ∷ s

-- `s.rstrip(chars)`
abbrev pub rstrip : List ℕ → Text → Text
rstrip chars [] = []
rstrip chars (c ∷ s) = elim (rstrip chars s) [
  | [] ↦ if contains c chars then [] else c ∷ []
  | d ∷ rest ↦ c ∷ d ∷ rest
]

-- The decimal digits of a number, put before a text; every step leaves a smaller number, so its
-- own value is fuel enough.
unfoldable pub digits_before : (fuel : ℕ) → ℕ → Text → Text
digits_before zero n rest = (48 + n % 10) ∷ rest
digits_before (suc fuel) n rest =
    let more = digits_before fuel (n / 10) ((48 + n % 10) ∷ rest) in
    if ltb n 10 then (48 + n % 10) ∷ rest else more

-- `str(n)`
unfoldable pub decimal : ℕ → Text
unfolding digits_before
decimal n = digits_before n n []

-- A number does not start with a letter.
starts_with-digits_before :
    (fuel n : ℕ) (rest prefix : Text)
    → starts_with (digits_before fuel n rest) (67 ∷ prefix) ≡ false
unfolding digits_before
starts_with-digits_before zero n rest prefix = ground arith
starts_with-digits_before (suc fuel) n rest prefix =
    ground (arith, starts_with-digits_before fuel (n / 10) ((48 + n % 10) ∷ rest) prefix)

pub starts_with-decimal : (n : ℕ) (prefix : Text) → starts_with (decimal n) (67 ∷ prefix) ≡ false
unfolding decimal
starts_with-decimal n prefix = starts_with-digits_before n n [] prefix

pub starts_with-occurs_in : (part s : Text) → starts_with s part ≡ true → occurs_in part s ≡ true
starts_with-occurs_in part [] h = h
starts_with-occurs_in part (c ∷ s) h = ground (arith, h)

pub text_same_iff : (s t : Text) → (text_same s t ≡ true) ↔ (s ≡ t)
text_same_iff [] [] = (λ h. refl, λ e. refl)
text_same_iff [] (d ∷ t) = (λ h. cc, λ e. cc)
text_same_iff (c ∷ s) [] = (λ h. cc, λ e. cc)
text_same_iff (c ∷ s) (d ∷ t) = ground (arith, text_same_iff s t)

instance abbrev pub text_eq : Comparable Text
text_eq = record { equals = text_same; equals_iff = text_same_iff }
