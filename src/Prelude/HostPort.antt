-- ===== src/Prelude/HostPort.antt =====
-- The host of a URL: the methods Port and Hostname of package net/url and net.JoinHostPort, which
-- buildIPDirectClient calls.
pub mod Joined
use Prim.Native.Char.{Char, code}
use Prim.Native.String.{String, char_at, ◌++◌}
use mathlib.Core.Path.{◌≡◌, refl, sym, ap, ap₂, ◌∙◌}
use mathlib.Core.Bool.{Bool, true, false, ◌&&◌}
use mathlib.Core.Option.{Option, none, some}
use native.Mathlib.Omega.{arith}
use text.Mathlib.TextPositions.{eq_refl, starts_with-append}
use text.Mathlib.TextLemmas.{append_assoc, nil-append, cons-append}
use cluster_api_provider_bri.Prelude.Tests.{nat_eq, if◌then◌else◌}
use cluster_api_provider_bri.Prelude.Text.{has_prefix, has_suffix, all_digits}

unfoldable pub has_colon : String → Bool
has_colon String.[] = false
has_colon (String.◌∷◌ c s) = if nat_eq (code c) b':' then true else has_colon s

-- The first test that passes: the recursive answer goes in front of this colon.
abbrev cut_here : Char → String → Option (String × String) → Option (String × String)
cut_here c s (some (h, p)) = some (String.◌∷◌ c h, p)
cut_here c s none = if nat_eq (code c) b':' then some ("", s) else none

-- The texts before and after the last colon (strings.LastIndexByte).
unfoldable pub cut_last_colon : String → Option (String × String)
cut_last_colon String.[] = none
cut_last_colon (String.◌∷◌ c s) = cut_here c s (cut_last_colon s)

abbrev drop_first : String → String
drop_first String.[] = ""
drop_first (String.◌∷◌ c s) = s

unfoldable pub drop_last : String → String
drop_last String.[] = ""
drop_last (String.◌∷◌ c String.[]) = ""
drop_last (String.◌∷◌ c (String.◌∷◌ d s)) = String.◌∷◌ c (drop_last (String.◌∷◌ d s))

unfoldable pub is_bracketed : String → Bool
unfolding has_suffix
is_bracketed s = has_prefix s "[" && has_suffix s "]"

unfoldable pub without_brackets : String → String
unfolding is_bracketed drop_last
without_brackets s = if is_bracketed s then drop_last (drop_first s) else s

abbrev numeric_port : String → Option (String × String) → String × String
numeric_port s none = (s, "")
numeric_port s (some (h, p)) = if all_digits p then (h, p) else (s, "")

-- splitHostPort of package net/url, before the brackets of an IPv6 address are taken off.
unfoldable pub split_port : String → String × String
unfolding cut_last_colon all_digits
split_port s = numeric_port s (cut_last_colon s)

-- URL.Port and URL.Hostname
unfoldable pub port_of : String → String
unfolding split_port
port_of s = (split_port s).1

unfoldable pub hostname_of : String → String
unfolding split_port without_brackets
hostname_of s = without_brackets ((split_port s).0)

-- net.JoinHostPort
unfoldable pub join_host_port : String → String → String
unfolding has_colon
join_host_port host port =
    if has_colon host then "[" ++ host ++ "]:" ++ port else host ++ ":" ++ port

tests :
    (port_of "api.example.io:6443" ≡ "6443")
    × (port_of "api.example.io" ≡ "")
    × (hostname_of "[fd00::1]:6443" ≡ "fd00::1")
    × (hostname_of "[fd00::1]" ≡ "fd00::1")
    × (port_of "fd00::1" ≡ "1")
    × (join_host_port "fd00::1" "6443" ≡ "[fd00::1]:6443")
    × (join_host_port "203.0.113.7" "6443" ≡ "203.0.113.7:6443")
unfolding port_of hostname_of join_host_port
tests = (refl, refl, refl, refl, refl, refl, refl)
