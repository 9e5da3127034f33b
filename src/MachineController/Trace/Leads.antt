-- ===== src/MachineController/Trace/Leads.antt =====
-- Actions that lead from one property of the trace to another.
use cluster_api_provider_bri.Prelude.{List}
use cluster_api_provider_bri.Go.{Err}
use cluster_api_provider_bri.Go.Action.{M, Result, ok, err, handle, branch, continue, ◌>>=◌}
use cluster_api_provider_bri.MachineController.Trace.{Event, Traced, trace}
use cluster_api_provider_bri.MachineController.Trace.Keeps.{Keeps}

module _ {W : Type 0} (P Q : List Event → Type 0) where
  -- A run from a trace with the first property ends in one with the second.
  pub record Leads {A : Type 0} (f : M (Traced W) A) : Type 0 where
    pub run : (w : W) (t : List Event) → P t → Q (trace (f (w, t)))

module _ {W A B : Type 0} {P Q : List Event → Type 0} where
  branch-leads :
      (r : Result A × Traced W) (h : Err → M (Traced W) B) (f : A → M (Traced W) B)
      → P (trace r)
      → ((e : Err) → Leads P Q (h e))
      → ((a : A) → Leads P Q (f a))
      → Q (trace (branch r h f))
  branch-leads (ok a, (w, t)) h f p k l = (l a).run w t p
  branch-leads (err e, (w, t)) h f p k l = (k e).run w t p

  pub Leads-handle :
      (m : M (Traced W) A) (h : Err → M (Traced W) B) (f : A → M (Traced W) B)
      → Keeps P m
      → ((e : Err) → Leads P Q (h e))
      → ((a : A) → Leads P Q (f a))
      → Leads P Q (handle m h f)
  Leads-handle m h f k l n = record { run = λ w t p. branch-leads (m (w, t)) h f (k.run w t p) l n }

  continue-leads :
      (r : Result A × Traced W) (f : A → M (Traced W) B)
      → P (trace r)
      → ((t : List Event) → P t → Q t)
      → ((a : A) → Leads P Q (f a))
      → Q (trace (continue r f))
  continue-leads (ok a, (w, t)) f p q k = (k a).run w t p
  continue-leads (err e, (w, t)) f p q k = q t p

  -- An error returns at once, so the first property must give the second.
  pub Leads-bind :
      (m : M (Traced W) A) (f : A → M (Traced W) B)
      → Keeps P m
      → ((t : List Event) → P t → Q t)
      → ((a : A) → Leads P Q (f a))
      → Leads P Q (m >>= f)
  Leads-bind m f k q l = record { run = λ w t p. continue-leads (m (w, t)) f (k.run w t p) q l }
