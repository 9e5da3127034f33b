-- ===== src/Tests/Yaml.antt =====
-- A codec that meets YamlLaws and YamlWrites: documents are printed after their size in unary, which
-- is the fuel of the parser.
use Prim.Native.Char.{Char, code}
use cluster_api_provider_bri.Prelude.{
  ℕ, zero, suc, ◌+◌, ◌≤◌, String, Option, none, some, List, [], ◌∷◌, ◌≡◌, ◌∙◌, refl, sym, ap, arith,
  nat_eq, if◌then◌else◌,
}
use cluster_api_provider_bri.Go.{other}
use cluster_api_provider_bri.Go.Action.{Result, ok, err}
use cluster_api_provider_bri.Config.Codec.{YamlCodec, YamlLaws, YamlWrites, all_ok}
use cluster_api_provider_bri.Config.Document.{
  Yaml, text, scalar, items, fields, Items, nil, cons, Fields, end, field,
}

infixr 67 ◌▸◌
abbrev ◌▸◌ : Char → String → String
c ▸ s = String.◌∷◌ c s

print_text : String → String → String
print_text String.[] rest = "." ▸ rest
print_text (String.◌∷◌ c s) rest = "+" ▸ (c ▸ print_text s rest)

mutual
  print_yaml : Yaml → String → String
  print_yaml (text s) rest = "t" ▸ print_text s rest
  print_yaml (scalar s) rest = "s" ▸ print_text s rest
  print_yaml (items l) rest = "i" ▸ print_items l rest
  print_yaml (fields m) rest = "f" ▸ print_fields m rest

  print_items : Items → String → String
  print_items nil rest = "." ▸ rest
  print_items (cons v l) rest = "+" ▸ print_yaml v (print_items l rest)

  print_fields : Fields → String → String
  print_fields end rest = "." ▸ rest
  print_fields (field k v m) rest = "+" ▸ print_text k (print_yaml v (print_fields m rest))

mutual
  size_yaml : Yaml → ℕ
  size_yaml (text s) = 1
  size_yaml (scalar s) = 1
  size_yaml (items l) = suc (size_items l)
  size_yaml (fields m) = suc (size_fields m)

  size_items : Items → ℕ
  size_items nil = 1
  size_items (cons v l) = suc (size_yaml v + size_items l)

  size_fields : Fields → ℕ
  size_fields end = 1
  size_fields (field k v m) = suc (size_yaml v + size_fields m)

-- What a parser found, and the rest of the text.
abbrev Parsed : Type 0 → Type 0
Parsed A = Option (A × String)

abbrev then_parse : {A B : Type 0} → Parsed A → (A → String → Parsed B) → Parsed B
then_parse none k = none
then_parse (some (a, rest)) k = k a rest

data Tag : Type 0 where
  stop more is_text is_scalar is_items is_fields : Tag

abbrev tag : Char → Tag
tag c =
    if nat_eq (code c) b'.'
    then stop
    else if nat_eq (code c) b'+'
    then more
    else if nat_eq (code c) b't'
    then is_text
    else if nat_eq (code c) b's'
    then is_scalar
    else if nat_eq (code c) b'i'
    then is_items
    else is_fields

parse_text : String → Parsed String
parse_text String.[] = none
parse_text (String.◌∷◌ c String.[]) = some ("", "")
parse_text (String.◌∷◌ c (String.◌∷◌ d s)) = elim (tag c) [
  | more ↦ then_parse (parse_text s) λ t rest. some (d ▸ t, rest)
  | _ ↦ some ("", d ▸ s)
]

parse_text-print_text : (s rest : String) → parse_text (print_text s rest) ≡ some (s, rest)
unfolding parse_text print_text
parse_text-print_text String.[] String.[] = refl
parse_text-print_text String.[] (String.◌∷◌ c rest) = refl
parse_text-print_text (String.◌∷◌ c s) rest = rw (parse_text-print_text s rest) refl

mutual
  parse_yaml : ℕ → String → Parsed Yaml
  parse_yaml zero s = none
  parse_yaml (suc f) String.[] = none
  parse_yaml (suc f) (String.◌∷◌ c s) = elim (tag c) [
    | is_text ↦ then_parse (parse_text s) λ t rest. some (text t, rest)
    | is_scalar ↦ then_parse (parse_text s) λ t rest. some (scalar t, rest)
    | is_items ↦ then_parse (parse_items f s) λ l rest. some (items l, rest)
    | is_fields ↦ then_parse (parse_fields f s) λ m rest. some (fields m, rest)
    | _ ↦ none
  ]

  parse_items : ℕ → String → Parsed Items
  parse_items zero s = none
  parse_items (suc f) String.[] = none
  parse_items (suc f) (String.◌∷◌ c s) = elim (tag c) [
    | stop ↦ some (nil, s)
    | _ ↦
        then_parse (parse_yaml f s)
          λ v rest. then_parse (parse_items f rest) λ l rest'. some (cons v l, rest')
  ]

  parse_fields : ℕ → String → Parsed Fields
  parse_fields zero s = none
  parse_fields (suc f) String.[] = none
  parse_fields (suc f) (String.◌∷◌ c s) = elim (tag c) [
    | stop ↦ some (end, s)
    | _ ↦ then_parse (parse_text s) λ k rest.
        then_parse (parse_yaml f rest)
          λ v rest'. then_parse (parse_fields f rest') λ m rest''. some (field k v m, rest'')
  ]

mutual
  unfolding parse_yaml print_yaml size_yaml

  parse-print_yaml :
      (v : Yaml) (f : ℕ) (rest : String)
      → size_yaml v ≤ f
      → parse_yaml f (print_yaml v rest) ≡ some (v, rest)
  parse-print_yaml (text s) zero rest h = absurd (omega arith)
  parse-print_yaml (text s) (suc f) rest h = rw (parse_text-print_text s rest) refl
  parse-print_yaml (scalar s) zero rest h = absurd (omega arith)
  parse-print_yaml (scalar s) (suc f) rest h = rw (parse_text-print_text s rest) refl
  parse-print_yaml (items l) zero rest h = absurd (omega arith)
  parse-print_yaml (items l) (suc f) rest h = rw (parse-print_items l f rest (omega arith)) refl
  parse-print_yaml (fields m) zero rest h = absurd (omega arith)
  parse-print_yaml (fields m) (suc f) rest h = rw (parse-print_fields m f rest (omega arith)) refl

  parse-print_items :
      (l : Items) (f : ℕ) (rest : String)
      → size_items l ≤ f
      → parse_items f (print_items l rest) ≡ some (l, rest)
  parse-print_items nil zero rest h = absurd (omega arith)
  parse-print_items nil (suc f) rest h = refl
  parse-print_items (cons v l) zero rest h = absurd (omega arith)
  parse-print_items (cons v l) (suc f) rest h =
      rw (parse-print_yaml v f (print_items l rest) (omega arith))
        (rw (parse-print_items l f rest (omega arith)) refl)

  parse-print_fields :
      (m : Fields) (f : ℕ) (rest : String)
      → size_fields m ≤ f
      → parse_fields f (print_fields m rest) ≡ some (m, rest)
  parse-print_fields end zero rest h = absurd (omega arith)
  parse-print_fields end (suc f) rest h = refl
  parse-print_fields (field k v m) zero rest h = absurd (omega arith)
  parse-print_fields (field k v m) (suc f) rest h =
      rw (parse_text-print_text k (print_yaml v (print_fields m rest))) (
        rw (parse-print_yaml v f (print_fields m rest) (omega arith))
          (rw (parse-print_fields m f rest (omega arith)) refl))

print_docs : List Fields → String
print_docs [] = "." ▸ ""
print_docs (doc ∷ docs) = "+" ▸ print_fields doc (print_docs docs)

size_docs : List Fields → ℕ
size_docs [] = 1
size_docs (doc ∷ docs) = suc (size_fields doc + size_docs docs)

abbrev then_docs : Parsed Fields → (String → List (Result Fields)) → List (Result Fields)
then_docs none k = err (other "not printed") ∷ []
then_docs (some (doc, rest)) k = ok doc ∷ k rest

parse_docs : ℕ → String → List (Result Fields)
parse_docs zero s = err (other "no fuel") ∷ []
parse_docs (suc f) String.[] = []
parse_docs (suc f) (String.◌∷◌ c s) = elim (tag c) [
  | more ↦ then_docs (parse_fields f s) (parse_docs f)
  | _ ↦ []
]

parse-print_docs :
    (docs : List Fields) (f : ℕ) → size_docs docs ≤ f → parse_docs f (print_docs docs) ≡ all_ok docs
unfolding parse_docs print_docs size_docs
parse-print_docs [] zero h = absurd (omega arith)
parse-print_docs [] (suc f) h = refl
parse-print_docs (doc ∷ docs) zero h = absurd (omega arith)
parse-print_docs (doc ∷ docs) (suc f) h =
    rw (parse-print_fields doc f (print_docs docs) (omega arith))
      (ap (λ l. ok doc ∷ l) (parse-print_docs docs f (omega arith)))

print_nat : ℕ → String → String
print_nat zero s = "." ▸ s
print_nat (suc n) s = "+" ▸ print_nat n s

parse_nat : String → ℕ × String
parse_nat String.[] = (0, "")
parse_nat (String.◌∷◌ c s) =
    let r = parse_nat s in elim (tag c) [ more ↦ (suc r.0, r.1) | _ ↦ (0, s) ]

parse-print_nat : (n : ℕ) (s : String) → parse_nat (print_nat n s) ≡ (n, s)
unfolding parse_nat print_nat
parse-print_nat zero s = refl
parse-print_nat (suc n) s = ap (λ r. (suc r.0, r.1)) (parse-print_nat n s)

pub print_config : List Fields → String
print_config docs = print_nat (size_docs docs) (print_docs docs)

pub parse_config : String → List (Result Fields)
parse_config s = let r = parse_nat s in parse_docs r.0 r.1

parse-print_config : (docs : List Fields) → parse_config (print_config docs) ≡ all_ok docs
unfolding parse_config print_config
parse-print_config docs =
    ap (λ r. parse_docs r.0 r.1) (parse-print_nat (size_docs docs) (print_docs docs))
    ∙ parse-print_docs docs (size_docs docs) (omega arith)

abbrev pub printed_yaml : YamlCodec
printed_yaml = record {
  decode = parse_config;
  encode = λ docs doc. none;
  close = λ docs. ok (print_config docs);
}

printed-decode_close :
    (docs : List Fields) (config : String)
    → printed_yaml.close docs ≡ ok config
    → parse_config config ≡ all_ok docs
printed-decode_close docs config e =
    let same : print_config docs ≡ config = cc in
    ap parse_config (sym same) ∙ parse-print_config docs

pub printed_yaml-YamlLaws : YamlLaws printed_yaml
printed_yaml-YamlLaws = record { decode-close = printed-decode_close }

pub printed_yaml-YamlWrites : YamlWrites printed_yaml
printed_yaml-YamlWrites = record {
  encodes = λ docs doc. refl;
  closes = λ docs. (print_config docs, refl);
}
