-- ===== src/Api/Meta.antt =====
-- What the API objects share: object keys, metadata and status conditions. Conditions are kept by
-- cluster-api's package conditions and finalizers by controller-runtime's controllerutil, which
-- are not part of the repository: their functions are the fields of `Util`, and what the
-- controllers rely on is `UtilLaws`.
use cluster_api_provider_bri.Prelude.{
  ℕ, String, ◌≡◌, Bool, true, false, Option, none, some, List, ◌==◌, if◌then◌else◌,
}
use cluster_api_provider_bri.Prelude.Int.{ℤ}
use cluster_api_provider_bri.Prelude.Dict.{Dict}

pub record ObjectKey : Type 0 where
  pub namespace : String
  pub name : String

pub record ObjectMeta : Type 0 where
  pub name : String
  pub namespace : String
  pub uid : String
  pub generation : ℤ
  pub labels : Dict String
  pub annotations : Dict String
  pub finalizers : List String
  pub deletion_timestamp : Option ℕ

abbrev pub key_of : ObjectMeta → ObjectKey
key_of m = record { namespace = m.namespace; name = m.name }

-- DeletionTimestamp.IsZero()
abbrev pub is_deleted : ObjectMeta → Bool
is_deleted m = elim m.deletion_timestamp [ none ↦ false | some t ↦ true ]

pub data Status : Type 0 where
  status_true status_false status_unknown : Status

pub data Severity : Type 0 where
  severity_none severity_info severity_warning severity_error : Severity

-- A condition without its type, which is its key, and without its message and time.
pub record Condition : Type 0 where
  pub status : Status
  pub reason : String
  pub severity : Severity

pub record Conditions : Type 0 where
  pub entries : List (String × Condition)

pub record Util : Type 0 where
  pub is_true : Conditions → String → Bool  -- conditions.IsTrue
  pub set_condition : Conditions → String → Condition → Conditions  -- conditions.Set
  pub contains_finalizer : List String → String → Bool
  pub add_finalizer : List String → String → List String
  pub remove_finalizer : List String → String → List String

module _ (u : Util) where
  -- conditions.MarkTrue
  abbrev pub mark_true : Conditions → String → Conditions
  mark_true c t =
      u.set_condition c t (record { status = status_true; reason = ""; severity = severity_none })

  -- conditions.MarkFalse, without the message
  abbrev pub mark_false : Conditions → String → String → Severity → Conditions
  mark_false c t reason severity =
      u.set_condition c t (record { status = status_false; reason = reason; severity = severity })

  -- conditions.Set with status True and a reason
  abbrev pub set_true : Conditions → String → String → Conditions
  set_true c t reason =
      u.set_condition c t
        (record { status = status_true; reason = reason; severity = severity_none })

abbrev pub status_is_true : Status → Bool
status_is_true status_true = true
status_is_true _ = false

-- The documented behaviour of the two packages: IsTrue reads the condition that Set last set under
-- its type, and a finalizer is there after it is added and gone after it is removed.
pub record UtilLaws (u : Util) : Type 0 where
  pub is_true-set_condition :
      (c : Conditions) (t s : String) (v : Condition)
      → u.is_true (u.set_condition c t v) s
        ≡ (if t == s then status_is_true v.status else u.is_true c s)
  pub contains-add :
      (l : List String) (f : String) → u.contains_finalizer (u.add_finalizer l f) f ≡ true
  pub contains-remove :
      (l : List String) (f : String) → u.contains_finalizer (u.remove_finalizer l f) f ≡ false
