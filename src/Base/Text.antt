-- ===== src/Base/Text.antt =====
-- Python's `str` methods that the package calls.
use Prim.Native.Char.{Char, code}
use Prim.Native.Nat.{ℕ, zero, suc, ◌+◌, ◌-◌, ◌/◌, ◌%◌}
use Prim.Native.String.{String, ◌++◌, len, slice}
use mathlib.Core.Path.{◌≡◌, refl}
use mathlib.Core.Bool.{Bool, true, false, not, ◌&&◌}
use mathlib.Core.Option.{Option, none, some}
use native.Mathlib.Omega.{arith}
use icechest.Base.Tests.{nat_eq, ltb, if◌then◌else◌}

abbrev pub is_empty_text : String → Bool
is_empty_text String.[] = true
is_empty_text (String.◌∷◌ c s) = false

-- `value or default` on an optional text: `None` and `""` are both false.
abbrev pub text_or : Option String → String → String
text_or none d = d
text_or (some s) d = if is_empty_text s then d else s

abbrev pub is_slash : Char → Bool
is_slash c = nat_eq (code c) b'/'

-- A name without a slash: one segment of a path.
abbrev pub is_segment : String → Bool
is_segment String.[] = true
is_segment (String.◌∷◌ c s) = not (is_slash c) && is_segment s

push_unless_slash : Char → String → String
push_unless_slash c rest = if is_empty_text rest && is_slash c then String.[] else String.◌∷◌ c rest

-- `s.rstrip("/")`
unfoldable pub rstrip_slash : String → String
unfolding push_unless_slash
rstrip_slash String.[] = String.[]
rstrip_slash (String.◌∷◌ c s) = push_unless_slash c (rstrip_slash s)

rstrip_slash_test : rstrip_slash "s3://b/w//" ≡ "s3://b/w"
unfolding rstrip_slash
rstrip_slash_test = refl

abbrev pub ends_with_slash : String → Bool
ends_with_slash String.[] = false
ends_with_slash (String.◌∷◌ c s) = if is_empty_text s then is_slash c else ends_with_slash s

pub ends_with_slash-rstrip_slash : (s : String) → ends_with_slash (rstrip_slash s) ≡ false
unfolding rstrip_slash
ends_with_slash-rstrip_slash String.[] = refl
ends_with_slash-rstrip_slash (String.◌∷◌ c s) = ground (arith, ends_with_slash-rstrip_slash s)

digit : ℕ → String
digit d = slice "0123456789" d (d + 1)

digits : ℕ → ℕ → String → String
unfolding digit
digits zero n later = later
digits (suc fuel) n later =
    let longer = digit (n % 10) ++ later in
    let rest = digits fuel (n / 10) longer in if ltb n 10 then longer else rest

-- `str(n)`. A number has at most as many digits as its successor counts.
unfoldable pub decimal : ℕ → String
unfolding digits
decimal n = digits (n + 1) n ""

-- `f"{n:05d}"`
unfoldable pub zero_padded : ℕ → String
unfolding decimal
zero_padded n = let s = decimal n in slice "00000" 0 (5 - len s) ++ s

zero_padded_test : (zero_padded 0 ++ zero_padded 1204 ++ zero_padded 123456) ≡ "0000001204123456"
unfolding zero_padded
zero_padded_test = refl
