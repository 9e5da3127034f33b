-- ===== src/Config/Document.antt =====
-- A decoded YAML value, as yaml.v3 gives it for `any`: text, another scalar, a list or a map. The
-- order of a map's keys is not observed.
use cluster_api_provider_bri.Prelude.{
  String, ◌≡◌, refl, Option, none, some, arith, ◌==◌, eq_iff, if◌then◌else◌,
}

mutual
  pub data Yaml : Type 0 where
    text : String → Yaml
    scalar : String → Yaml
    items : Items → Yaml
    fields : Fields → Yaml

  pub data Items : Type 0 where
    nil : Items
    cons : Yaml → Items → Items

  pub data Fields : Type 0 where
    end : Fields
    field : String → Yaml → Fields → Fields

-- m[k]
unfoldable pub get : String → Fields → Option Yaml
get k end = none
get k (field j v m) = if j == k then some v else get k m

-- m[k] = v
unfoldable pub put : String → Yaml → Fields → Fields
put k v end = field k v end
put k v (field j w m) = if j == k then field k v m else field j w (put k v m)

-- append(l, v)
unfoldable pub append : Items → Yaml → Items
append nil v = cons v nil
append (cons w l) v = cons w (append l v)

pub get-put :
    (k j : String) (v : Yaml) (m : Fields)
    → get j (put k v m) ≡ (if k == j then some v else get j m)
unfolding get put
get-put k j v end = refl
get-put k j v (field i w m) = ground (arith, eq_iff k j, eq_iff i k, eq_iff i j, get-put k j v m)
