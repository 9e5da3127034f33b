-- ===== src/Prelude/HostPort/Joined.antt =====
-- How Port and Hostname read a host that JoinHostPort has written, or one without a port.
use Prim.Native.Char.{Char, code}
use Prim.Native.String.{String, char_at, ◌++◌}
use mathlib.Core.Path.{◌≡◌, refl, sym, ap, ap₂, ◌∙◌}
use mathlib.Core.Bool.{Bool, true, false, ◌&&◌}
use mathlib.Core.Option.{Option, none, some}
use native.Mathlib.Omega.{arith}
use text.Mathlib.TextPositions.{eq_refl, starts_with-append}
use text.Mathlib.TextLemmas.{append_assoc, nil-append, cons-append}
use cluster_api_provider_bri.Prelude.Tests.{nat_eq, if◌then◌else◌}
use cluster_api_provider_bri.Prelude.Text.{has_suffix, all_digits}
use cluster_api_provider_bri.Prelude.HostPort.{
  has_colon, cut_here, cut_last_colon, drop_first, drop_last, is_bracketed, without_brackets,
  numeric_port, split_port, port_of, hostname_of, join_host_port,
}

cut_here-none :
    (c : Char) (s : String) (o : Option (String × String))
    → o ≡ none
    → nat_eq (code c) b':' ≡ false
    → cut_here c s o ≡ none
cut_here-none c s o o_none other = ground arith

one-append : (c : Char) (t : String) → String.◌∷◌ c "" ++ t ≡ String.◌∷◌ c t
one-append c t = cons-append c "" t ∙ ap (λ u. String.◌∷◌ c u) (nil-append t)

cut_last_colon-append :
    (h p : String) → cut_last_colon p ≡ none → cut_last_colon (h ++ ":" ++ p) ≡ some (h, p)
unfolding cut_last_colon
cut_last_colon-append String.[] p e =
    rw (nil-append (":" ++ p), one-append (char_at ":" 0) p) (ap (cut_here (char_at ":" 0) p) e)
cut_last_colon-append (String.◌∷◌ c h) p e =
    rw (cons-append c h (":" ++ p)) (ap (cut_here c (h ++ ":" ++ p)) (cut_last_colon-append h p e))

cut_last_colon-digits : (p : String) → all_digits p ≡ true → cut_last_colon p ≡ none
unfolding cut_last_colon all_digits
cut_last_colon-digits String.[] e = refl
cut_last_colon-digits (String.◌∷◌ c p) e =
    cut_here-none c p (cut_last_colon p) (cut_last_colon-digits p (ground arith)) (ground arith)

cut_last_colon-none : (s : String) → has_colon s ≡ false → cut_last_colon s ≡ none
unfolding cut_last_colon has_colon
cut_last_colon-none String.[] e = refl
cut_last_colon-none (String.◌∷◌ c s) e =
    cut_here-none c s (cut_last_colon s) (cut_last_colon-none s (ground arith)) (ground arith)

has_suffix_refl : (t : String) → has_suffix t t ≡ true
unfolding has_suffix
has_suffix_refl String.[] = refl
has_suffix_refl (String.◌∷◌ c t) = ground (arith, eq_refl (String.◌∷◌ c t))

has_suffix-append : (s t : String) → has_suffix (s ++ t) t ≡ true
unfolding has_suffix
has_suffix-append String.[] t = rw (nil-append t) (has_suffix_refl t)
has_suffix-append (String.◌∷◌ c s) t =
    rw (cons-append c s t) (ground (arith, has_suffix-append s t))

drop_last-append : (s : String) → drop_last (s ++ "]") ≡ s
unfolding drop_last
drop_last-append String.[] = refl
drop_last-append (String.◌∷◌ c String.[]) = rw (cons-append c "" "]") refl
drop_last-append (String.◌∷◌ c (String.◌∷◌ d s)) =
    let rest = drop_last-append (String.◌∷◌ d s) in
    rw (cons-append c (String.◌∷◌ d s) "]", cons-append d s "]")
      (ap (λ u. String.◌∷◌ c u) (sym (ap drop_last (cons-append d s "]")) ∙ rest))

is_bracketed-bracketed : (s : String) → is_bracketed ("[" ++ s ++ "]") ≡ true
unfolding is_bracketed
is_bracketed-bracketed s =
    ap₂ (λ a b. a && b) (starts_with-append "[" (s ++ "]"))
      (rw (sym (append_assoc "[" s "]")) (has_suffix-append ("[" ++ s) "]"))

drop_first-bracket : (t : String) → drop_first ("[" ++ t) ≡ t
drop_first-bracket t = ap drop_first (one-append (char_at "[" 0) t)

without_brackets-bracketed : (s : String) → without_brackets ("[" ++ s ++ "]") ≡ s
unfolding without_brackets
without_brackets-bracketed s =
    ap (λ b. if b then drop_last (drop_first ("[" ++ s ++ "]")) else "[" ++ s ++ "]")
      (is_bracketed-bracketed s)
    ∙ ap drop_last (drop_first-bracket (s ++ "]"))
    ∙ drop_last-append s

without_brackets-plain : (s : String) → is_bracketed s ≡ false → without_brackets s ≡ s
unfolding without_brackets
without_brackets-plain s e = ground arith

split_port-append : (h p : String) → all_digits p ≡ true → split_port (h ++ ":" ++ p) ≡ (h, p)
unfolding split_port
split_port-append h p e =
    ap (numeric_port (h ++ ":" ++ p)) (cut_last_colon-append h p (cut_last_colon-digits p e))
    ∙ ap (λ b. if b then (h, p) else (h ++ ":" ++ p, "")) e

split_port-none : (s : String) → has_colon s ≡ false → split_port s ≡ (s, "")
unfolding split_port
split_port-none s e = ap (numeric_port s) (cut_last_colon-none s e)

bracketed-append : (ip p : String) → "[" ++ ip ++ "]:" ++ p ≡ ("[" ++ ip ++ "]") ++ ":" ++ p
bracketed-append ip p =
    rw (append_assoc "[" (ip ++ "]") (":" ++ p), append_assoc ip "]" (":" ++ p))
      (ap (λ t. "[" ++ ip ++ t) (append_assoc "]" ":" p))

-- The host that JoinHostPort writes before the colon.
abbrev written_host : String → String
unfolding has_colon
written_host ip = if has_colon ip then "[" ++ ip ++ "]" else ip

split_port-join :
    (ip p : String) → all_digits p ≡ true → split_port (join_host_port ip p) ≡ (written_host ip, p)
unfolding join_host_port
split_port-join ip p e =
    let plain = split_port-append ip p e in
    let bracketed =
      ap split_port (bracketed-append ip p) ∙ split_port-append ("[" ++ ip ++ "]") p e in
    ground (arith, plain, bracketed)

without_brackets-written :
    (ip : String) → is_bracketed ip ≡ false → without_brackets (written_host ip) ≡ ip
unfolding has_colon
without_brackets-written ip e = either (has_colon ip)
  where
    either : (b : Bool) → without_brackets (if b then "[" ++ ip ++ "]" else ip) ≡ ip
    either true = without_brackets-bracketed ip
    either false = without_brackets-plain ip e

numeric_port-digits :
    (s : String) (o : Option (String × String)) → all_digits ((numeric_port s o).1) ≡ true
unfolding all_digits
numeric_port-digits s none = refl
numeric_port-digits s (some (h, p)) = of_test (all_digits p) refl
  where
    of_test :
        (b : Bool)
        → all_digits p ≡ b
        → all_digits ((if◌then◌else◌ {A = String × String} b (h, p) (s, "")).1) ≡ true
    of_test true e = e
    of_test false e = refl

pub port_of-digits : (s : String) → all_digits (port_of s) ≡ true
unfolding port_of split_port
port_of-digits s = numeric_port-digits s (cut_last_colon s)

-- JoinHostPort is read back: an address without brackets of its own and a port of digits.
pub port_of-join : (ip p : String) → all_digits p ≡ true → port_of (join_host_port ip p) ≡ p
unfolding port_of
port_of-join ip p e = ap (λ r. r.1) (split_port-join ip p e)

pub hostname_of-join :
    (ip p : String)
    → is_bracketed ip ≡ false
    → all_digits p ≡ true
    → hostname_of (join_host_port ip p) ≡ ip
unfolding hostname_of
hostname_of-join ip p plain e =
    ap (λ r. without_brackets (r.0)) (split_port-join ip p e) ∙ without_brackets-written ip plain

-- A host that is an address alone: it has no port, if the address has no colon.
pub port_of-alone : (ip : String) → has_colon ip ≡ false → port_of ip ≡ ""
unfolding port_of
port_of-alone ip e = ap (λ r. r.1) (split_port-none ip e)

pub hostname_of-alone :
    (ip : String) → is_bracketed ip ≡ false → has_colon ip ≡ false → hostname_of ip ≡ ip
unfolding hostname_of
hostname_of-alone ip plain e =
    ap (λ r. without_brackets (r.0)) (split_port-none ip e) ∙ without_brackets-plain ip plain
