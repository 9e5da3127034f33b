-- ===== src/MachineController/Watch.antt =====
-- The watch predicates and the event mapping of pkg/controller/byotmachine_controller.go:
-- nodeLinkRetriggerSelfFilter, byoHostLabelChangeFilter and byoHostToByotMachine. An object of an
-- event is `none` where it is nil.
pub mod SelfFilter
use cluster_api_provider_bri.Prelude.{
  String, Bool, true, false, not, ◌&&◌, ◌||◌, Option, none, some, List, [], ◌∷◌, ◌==◌, ◌!=◌,
  if◌then◌else◌,
}
use cluster_api_provider_bri.Prelude.Int.{eq_ℤ}
use cluster_api_provider_bri.Prelude.Dict.{Dict, lookup, keep}
use cluster_api_provider_bri.Api.Meta.{ObjectKey, ObjectMeta}
use cluster_api_provider_bri.Api.Host.{ByotHost, HostClaimRef}

abbrev pub node_link_retrigger_annotation : String
node_link_retrigger_annotation = "infrastructure.cluster.x-k8s.io/node-link-retrigger"

unfoldable pub without_node_link_retrigger : Dict String → Dict String
unfolding keep
without_node_link_retrigger annotations =
    keep (λ k v. not (k == node_link_retrigger_annotation)) annotations

abbrev has_entry : String → Option String → Bool
has_entry v none = false
has_entry v (some w) = w == v

-- Every entry of the first map is one of the second.
unfoldable pub is_submap : Dict String → Dict String → Bool
unfolding lookup
is_submap [] b = true
is_submap ((k, v) ∷ a) b = if has_entry v (lookup k b) then is_submap a b else false

-- maps.Equal, and reflect.DeepEqual on maps of strings that are not nil.
unfoldable pub maps_equal : Dict String → Dict String → Bool
unfolding is_submap
maps_equal a b = is_submap a b && is_submap b a

abbrev annotations_changed : ObjectMeta → ObjectMeta → Bool
annotations_changed a b = not (
    maps_equal (without_node_link_retrigger a.annotations)
      (without_node_link_retrigger b.annotations))

-- nodeLinkRetriggerSelfFilter.Update
unfoldable pub self_filter_update : Option ObjectMeta → Option ObjectMeta → Bool
unfolding maps_equal without_node_link_retrigger
self_filter_update none new = true
self_filter_update (some old) none = true
self_filter_update (some old) (some new) =
    annotations_changed old new || not (eq_ℤ old.generation new.generation)

-- byoHostLabelChangeFilter.Update, for events of ByotHosts.
abbrev labels_changed : Option HostClaimRef → Dict String → Dict String → Bool
labels_changed none old new = false
labels_changed (some ref) old new = not (maps_equal old new)

unfoldable pub label_change_update : Option ByotHost → Option ByotHost → Bool
unfolding maps_equal
label_change_update none new = true
label_change_update (some old) none = true
label_change_update (some old) (some new) =
    labels_changed new.status.claim_ref old.meta.labels new.meta.labels

-- An event of a watch; the object before and after an update.
pub data WatchEvent (A : Type 0) : Type 0 where
  created deleted generic : A → WatchEvent A
  updated : Option A → Option A → WatchEvent A

-- The methods of nodeLinkRetriggerSelfFilter, by the kind of the event.
unfoldable pub self_filter : WatchEvent ObjectMeta → Bool
unfolding self_filter_update
self_filter (created object) = true
self_filter (deleted object) = true
self_filter (generic object) = true
self_filter (updated old new) = self_filter_update old new

-- The methods of byoHostLabelChangeFilter.
unfoldable pub label_change_filter : WatchEvent ByotHost → Bool
unfolding label_change_update
label_change_filter (created host) = true
label_change_filter (deleted host) = true
label_change_filter (generic host) = true
label_change_filter (updated old new) = label_change_update old new

abbrev requests : Option HostClaimRef → List ObjectKey
requests none = []
requests (some ref) = record { namespace = ref.namespace; name = ref.name } ∷ []

unfoldable pub byo_host_to_byot_machine : ByotHost → List ObjectKey
byo_host_to_byot_machine h = requests h.status.claim_ref
