-- ===== src/MachineController/Trace/Keeps.antt =====
-- Actions that keep a property of the trace, for the proofs about traces.
use cluster_api_provider_bri.Prelude.{
  String, Bool, true, false, List, ◌∷◌, ◌≡◌, refl, if◌then◌else◌,
}
use cluster_api_provider_bri.Go.{Err}
use cluster_api_provider_bri.Go.Action.{
  M, Result, ok, err, handle, pure, raise, wrap_err, continue, branch, wrapped, ◌>>=◌,
}
use cluster_api_provider_bri.MachineController.Trace.{Event, Traced, quiet, event, trace}

module _ {W : Type 0} (P : List Event → Type 0) where
  -- A run from a trace with the property ends in one with the property.
  pub record Keeps {A : Type 0} (f : M (Traced W) A) : Type 0 where
    pub run : (w : W) (t : List Event) → P t → P (trace (f (w, t)))

wrapped-trace :
    {W A : Type 0} (s : String) (r : Result A × Traced W) → trace (wrapped s r) ≡ trace r
wrapped-trace s (ok a, (w, t)) = refl
wrapped-trace s (err e, (w, t)) = refl

module _ {W A : Type 0} {P : List Event → Type 0} where
  pub Keeps-pure : (a : A) → Keeps {W = W} P (pure a)
  Keeps-pure a = record { run = λ w t p. p }

  pub Keeps-raise : (e : Err) → Keeps P (raise {W = Traced W} {A = A} e)
  Keeps-raise e = record { run = λ w t p. p }

  pub Keeps-quiet : (f : M W A) → Keeps P (quiet f)
  Keeps-quiet f = record { run = λ w t p. p }

  pub Keeps-event :
      (x : Event) (f : M W A) → ((t : List Event) → P t → P (x ∷ t)) → Keeps P (event x f)
  Keeps-event x f k = record { run = λ w t p. k t p }

  pub Keeps-if :
      (b : Bool) (f g : M (Traced W) A)
      → (b ≡ true → Keeps P f)
      → (b ≡ false → Keeps P g)
      → Keeps P (if b then f else g)
  Keeps-if true f g k l = k refl
  Keeps-if false f g k l = l refl

  pub Keeps-wrap : (s : String) (f : M (Traced W) A) → Keeps P f → Keeps P (wrap_err s f)
  Keeps-wrap s f k = record { run = λ w t p. rw (wrapped-trace s (f (w, t))) (k.run w t p) }

module _ {W A B : Type 0} {P : List Event → Type 0} where
  branch-trace :
      (r : Result A × Traced W) (h : Err → M (Traced W) B) (f : A → M (Traced W) B)
      → P (trace r)
      → ((e : Err) → Keeps P (h e))
      → ((a : A) → Keeps P (f a))
      → P (trace (branch r h f))
  branch-trace (ok a, (w, t)) h f p k l = (l a).run w t p
  branch-trace (err e, (w, t)) h f p k l = (k e).run w t p

  pub Keeps-handle :
      (m : M (Traced W) A) (h : Err → M (Traced W) B) (f : A → M (Traced W) B)
      → Keeps P m
      → ((e : Err) → Keeps P (h e))
      → ((a : A) → Keeps P (f a))
      → Keeps P (handle m h f)
  Keeps-handle m h f k l n = record { run = λ w t p. branch-trace (m (w, t)) h f (k.run w t p) l n }

  continue-trace :
      (r : Result A × Traced W) (f : A → M (Traced W) B)
      → P (trace r)
      → ((a : A) → Keeps P (f a))
      → P (trace (continue r f))
  continue-trace (ok a, (w, t)) f p k = (k a).run w t p
  continue-trace (err e, (w, t)) f p k = p

  pub Keeps-bind :
      (m : M (Traced W) A) (f : A → M (Traced W) B)
      → Keeps P m
      → ((a : A) → Keeps P (f a))
      → Keeps P (m >>= f)
  Keeps-bind m f k l = record { run = λ w t p. continue-trace (m (w, t)) f (k.run w t p) l }
