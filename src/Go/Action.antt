-- ===== src/Go/Action.antt =====
-- Actions: functions that call the API server or a machine. `W` is everything outside the process,
-- and an action takes the world as it finds it and leaves another behind, also when it fails.
use cluster_api_provider_bri.Prelude.{String}
use cluster_api_provider_bri.Go.{Err, wrap}

pub data Result {ℓ} (A : Type ℓ) : Type ℓ where
  ok : A → Result A
  err : Err → Result A

abbrev pub M : Type 0 → Type 0 → Type 0
M W A = W → Result A × W

module _ {W A B : Type 0} where
  -- The rest of a function after a call: an error returns at once.
  abbrev pub continue : Result A × W → (A → M W B) → Result B × W
  continue (ok a, w) f = f a w
  continue (err e, w) f = (err e, w)

  infixl 5 ◌>>=◌ ◌>>◌
  abbrev pub ◌>>=◌ : M W A → (A → M W B) → M W B
  ◌>>=◌ m f w = continue (m w) f

  abbrev pub ◌>>◌ : M W A → M W B → M W B
  ◌>>◌ m n w = continue (m w) (λ _. n)

module _ {W A B : Type 0} where
  abbrev pub branch : Result A × W → (Err → M W B) → (A → M W B) → Result B × W
  branch (ok a, w) h f = f a w
  branch (err e, w) h f = h e w

  -- `a, err := m; if err != nil { return h(err) }; f(a)`
  abbrev pub handle : M W A → (Err → M W B) → (A → M W B) → M W B
  handle m h f w = branch (m w) h f

module _ {W A : Type 0} where
  abbrev pub pure : A → M W A
  pure a w = (ok a, w)

  abbrev pub raise : Err → M W A
  raise e w = (err e, w)

  abbrev pub wrapped : String → Result A × W → Result A × W
  wrapped s (ok a, w) = (ok a, w)
  wrapped s (err e, w) = (err (wrap s e), w)

  -- `if err != nil { return …, fmt.Errorf("s …: %w", err) }`
  abbrev pub wrap_err : String → M W A → M W A
  wrap_err s m w = wrapped s (m w)

  abbrev pub answered : A × W → Result A × W
  answered (a, w) = (ok a, w)

  -- A call that reads nothing of the world.
  abbrev pub lift : Result A → M W A
  lift r w = (r, w)

  -- A call that has no error result, such as a probe.
  abbrev pub ask : (W → A × W) → M W A
  ask m w = answered (m w)
