-- ===== src/Client/Journal.antt =====
-- A client that keeps a journal of the objects that are sent to the API server. It answers as the
-- client that it wraps, so a statement about the journal holds whatever the server answers.
use cluster_api_provider_bri.Prelude.{List, ◌∷◌}
use cluster_api_provider_bri.Go.Action.{M, Result}
use cluster_api_provider_bri.Api.Host.{ByotHost}
use cluster_api_provider_bri.Client.{HostClient}

-- One call that may change a stored ByotHost, with the object that it sends.
pub data HostWrite : Type 0 where
  patched : ByotHost → ByotHost → HostWrite
  updated : ByotHost → HostWrite
  status_updated : ByotHost → HostWrite
  finalizer_ensured : ByotHost → HostWrite

abbrev pub Logged : Type 0 → Type 0
Logged W = W × List HostWrite

module _ {W A : Type 0} where
  abbrev relog : Result A × W → List HostWrite → Result A × Logged W
  relog (r, w) log = (r, (w, log))

  -- A call that writes nothing.
  abbrev pub silent : M W A → M (Logged W) A
  silent m (w, log) = relog (m w) log

  -- A call that writes; the last write stands first.
  abbrev pub noted : HostWrite → M W A → M (Logged W) A
  noted x m (w, log) = relog (m w) (x ∷ log)

  abbrev relog_answer : A × W → List HostWrite → A × Logged W
  relog_answer (a, w) log = (a, (w, log))

  abbrev pub silent_answer : (W → A × W) → Logged W → A × Logged W
  silent_answer m (w, log) = relog_answer (m w) log

abbrev pub journaled : {W : Type 0} → HostClient W → HostClient (Logged W)
journaled c = record {
  get_host = λ k. silent (c.get_host k);
  list_hosts = λ n l. silent (c.list_hosts n l);
  update_host = λ h. noted (updated h) (c.update_host h);
  update_host_status = λ h. noted (status_updated h) (c.update_host_status h);
  new_host_helper = λ h. silent (c.new_host_helper h);
  patch_host = λ b h. noted (patched b h) (c.patch_host b h);
  ensure_host_finalizer = λ h f. noted (finalizer_ensured h) (c.ensure_host_finalizer h f);
  parse_selector = λ l. silent (c.parse_selector l);
  now = silent_answer c.now;
}

-- The journal that a run leaves.
abbrev pub journal : {W A : Type 0} → Result A × Logged W → List HostWrite
journal (r, (w, log)) = log
