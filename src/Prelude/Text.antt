-- ===== src/Prelude/Text.antt =====
-- The functions of Go's packages strings and strconv that the controllers call, over the native
-- strings. Case is mapped on the ASCII letters: the texts that go through it are hexadecimal ids
-- and the names of disk types.
use Prim.Native.Char.{Char, code}
use Prim.Native.Nat.{ℕ, zero, suc, ◌-◌, ◌/◌, ◌%◌}
use Prim.Native.String.{String, char_at, slice, len, ◌++◌}
use mathlib.Core.Path.{◌≡◌, refl}
use mathlib.Core.Bool.{Bool, true, false, ◌&&◌, ◌||◌}
use text.Mathlib.Text.{starts_with}
use cluster_api_provider_bri.Prelude.Int.{ℤ, pos, negsuc}
use cluster_api_provider_bri.Prelude.Tests.{ltb, leb, nat_eq, ◌==◌, if◌then◌else◌}

-- strings.HasPrefix
abbrev pub has_prefix : String → String → Bool
has_prefix s t = starts_with s t

-- strings.TrimPrefix
abbrev pub trim_prefix : String → String → String
trim_prefix s t = if starts_with s t then slice s (len t) (len s) else s

-- strings.HasSuffix: some tail of `s`, `s` itself included, is `t`.
unfoldable pub has_suffix : String → String → Bool
has_suffix String.[] t = t == ""
has_suffix (String.◌∷◌ c s) t = if String.◌∷◌ c s == t then true else has_suffix s t

-- The part before the first separator, all of the text where there is none: the first result of
-- strings.Cut, for a separator of one character.
unfoldable pub before : ℕ → String → String
before sep String.[] = ""
before sep (String.◌∷◌ c s) = if nat_eq (code c) sep then "" else String.◌∷◌ c (before sep s)

abbrev lower_char : Char → Char
lower_char c =
    if leb b'A' (code c) && leb (code c) b'Z'
    then char_at "abcdefghijklmnopqrstuvwxyz" (code c - b'A')
    else c

-- strings.ToLower
unfoldable pub to_lower : String → String
to_lower String.[] = ""
to_lower (String.◌∷◌ c s) = String.◌∷◌ (lower_char c) (to_lower s)

-- Whether every character is a decimal digit: the loop of isNumaNodeDir reads the same test.
unfoldable pub all_digits : String → Bool
all_digits String.[] = true
all_digits (String.◌∷◌ c s) = if ltb (code c) b'0' || ltb b'9' (code c) then false else all_digits s

abbrev digit : ℕ → Char
digit d = char_at "0123456789" d

-- The digits of a number before `acc`; the fuel bounds the number of digits.
unfoldable pub decimal : ℕ → ℕ → String → String
decimal zero n acc = acc
decimal (suc f) n acc =
    let rest = decimal f (n / 10) (String.◌∷◌ (digit (n % 10)) acc) in
    if ltb n 10 then String.◌∷◌ (digit n) acc else rest

-- strconv.FormatInt(n, 10); an int64 has at most 19 digits.
unfoldable pub format_int : ℤ → String
unfolding decimal
format_int (pos n) = decimal 20 n ""
format_int (negsuc n) = "-" ++ decimal 20 (suc n) ""

format_int_tests :
    (format_int (pos 0) ≡ "0")
    × (format_int (pos 1024) ≡ "1024")
    × (format_int (negsuc 9) ≡ "-10")
    × (format_int (pos 9223372036854775807) ≡ "9223372036854775807")
unfolding format_int
format_int_tests = (refl, refl, refl, refl)

lower_tests : (to_lower "0X10DE" ≡ "0x10de") × (to_lower "NVMe" ≡ "nvme")
unfolding to_lower
lower_tests = (refl, refl)

cut_tests : (before b'/' "byot.io/memory" ≡ "byot.io") × (before b'/' "site" ≡ "site")
unfolding before
cut_tests = (refl, refl)

suffix_tests :
    (has_suffix "node-role.kubernetes.io" ".kubernetes.io" ≡ true)
    × (has_suffix "kubernetes.io" ".kubernetes.io" ≡ false)
unfolding has_suffix
suffix_tests = (refl, refl)

trim_tests : (trim_prefix "0x10de" "0x" ≡ "10de") × (trim_prefix "10de" "0x" ≡ "10de")
trim_tests = (refl, refl)
