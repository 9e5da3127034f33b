-- ===== src/MachineController/Watch/SelfFilter.antt =====
-- What nodeLinkRetriggerSelfFilter of pkg/controller/byotmachine_controller.go lets through.
use cluster_api_provider_bri.Prelude.{
  String, true, false, not, Option, none, some, [], ◌∷◌, ◌≡◌, ◌≢◌, ◌↔◌, refl, sym, arith, ◌==◌,
  eq_iff, if◌then◌else◌, Bool-cases, inl, inr,
}
use cluster_api_provider_bri.Prelude.Dict.{Dict, lookup, lookup-keep_keys}
use cluster_api_provider_bri.Prelude.Dict.Distinct.{HasDistinctKeys, keep-HasDistinctKeys}
use cluster_api_provider_bri.Api.Meta.{ObjectMeta}
use cluster_api_provider_bri.MachineController.Watch.{
  node_link_retrigger_annotation, without_node_link_retrigger, is_submap, maps_equal,
  self_filter_update, has_entry,
}

has_entry_of : (v : String) (o : Option String) → o ≡ some v → has_entry v o ≡ true
has_entry_of v none e = ground arith
has_entry_of v (some w) e = ground (arith, eq_iff w v)

entry_of : (v : String) (o : Option String) → has_entry v o ≡ true → o ≡ some v
entry_of v none e = ground arith
entry_of v (some w) e = ground (arith, eq_iff w v)

is_submap-true :
    (a b : Dict String)
    → HasDistinctKeys a
    → ((k v : String) → lookup k a ≡ some v → lookup k b ≡ some v)
    → is_submap a b ≡ true
unfolding is_submap lookup
is_submap-true [] b d h = refl
is_submap-true ((k, v) ∷ a) b d h =
    let here = has_entry_of v (lookup k b) (h k v (ground (arith, eq_iff k k))) in
    let rest = is_submap-true a b d.1 (λ j u e. h j u (ground (arith, eq_iff k j, d.0, e))) in
    ground (arith, here, rest)

is_submap_sound :
    (a b : Dict String) (k v : String)
    → is_submap a b ≡ true
    → lookup k a ≡ some v
    → lookup k b ≡ some v
unfolding is_submap lookup
is_submap_sound [] b k v e h = ground arith
is_submap_sound ((j, w) ∷ a) b k v e h =
    grind (arith, eq_iff j k, entry_of w (lookup j b), is_submap_sound a b k v)

-- Whether two maps have the same entries.
abbrev pub SameEntries : Dict String → Dict String → Type 0
SameEntries a b = (k : String) → lookup k a ≡ lookup k b

maps_equal-true :
    (a b : Dict String)
    → HasDistinctKeys a
    → HasDistinctKeys b
    → SameEntries a b
    → maps_equal a b ≡ true
unfolding maps_equal
maps_equal-true a b d e same = ground (
  arith,
  is_submap-true a b d (λ k v h. rw (← same k) h),
  is_submap-true b a e (λ k v h. rw (same k) h),
)

same_option :
    (o p : Option String)
    → ((v : String) → o ≡ some v → p ≡ some v)
    → ((v : String) → p ≡ some v → o ≡ some v)
    → o ≡ p
same_option none none f g = refl
same_option none (some v) f g = g v refl
same_option (some v) p f g = sym (f v refl)

maps_equal_sound : (a b : Dict String) → maps_equal a b ≡ true → SameEntries a b
unfolding maps_equal
maps_equal_sound a b e k =
    same_option (lookup k a) (lookup k b) (λ v. is_submap_sound a b k v (ground arith))
      (λ v. is_submap_sound b a k v (ground arith))

-- Two objects with the same entries but for the retrigger annotation.
abbrev pub DifferInRetrigger : Dict String → Dict String → Type 0
DifferInRetrigger a b = (k : String) → k ≢ node_link_retrigger_annotation → lookup k a ≡ lookup k b

kept :
    (k : String) (a : Dict String)
    → lookup k (without_node_link_retrigger a)
      ≡ (if not (k == node_link_retrigger_annotation) then lookup k a else none)
unfolding without_node_link_retrigger
kept k a = lookup-keep_keys (λ j. not (j == node_link_retrigger_annotation)) k a

kept-HasDistinctKeys :
    (a : Dict String) → HasDistinctKeys a → HasDistinctKeys (without_node_link_retrigger a)
unfolding without_node_link_retrigger
kept-HasDistinctKeys a d = keep-HasDistinctKeys _ a d

kept-SameEntries :
    (a b : Dict String)
    → DifferInRetrigger a b
    → SameEntries (without_node_link_retrigger a) (without_node_link_retrigger b)
kept-SameEntries a b same k = elim (Bool-cases (k == node_link_retrigger_annotation)) [
  | inl y ↦ ground (arith, kept k a, kept k b)
  | inr n ↦
      let other = same k (ground (arith, eq_iff k node_link_retrigger_annotation)) in
      ground (arith, kept k a, kept k b)
]

differ_of :
    (a b : Dict String)
    → SameEntries (without_node_link_retrigger a) (without_node_link_retrigger b)
    → DifferInRetrigger a b
differ_of a b same k ne =
    let here = same k in ground (arith, kept k a, kept k b, eq_iff k node_link_retrigger_annotation)

-- nodeLinkRetriggerSelfFilter drops the update of an object exactly if its generation is the same
-- and its annotations differ in nothing but the node-link retrigger: the controller does not wake
-- itself by that annotation, and misses no other change of an annotation or of the generation.
pub self_filter_update-false :
    (old new : ObjectMeta)
    → HasDistinctKeys old.annotations
    → HasDistinctKeys new.annotations
    → (self_filter_update (some old) (some new) ≡ false)
      ↔ ((old.generation ≡ new.generation) × DifferInRetrigger old.annotations new.annotations)
unfolding self_filter_update
self_filter_update-false old new d e =
    let a = without_node_link_retrigger old.annotations in
    let b = without_node_link_retrigger new.annotations in
    (
      λ h. (
        ground arith,
        differ_of old.annotations new.annotations (maps_equal_sound a b (ground arith)),
      ),
      λ h.
          let same =
            maps_equal-true a b (kept-HasDistinctKeys old.annotations d)
              (kept-HasDistinctKeys new.annotations e)
              (kept-SameEntries old.annotations new.annotations h.1) in
          let gen = h.0 in ground arith,
    )
