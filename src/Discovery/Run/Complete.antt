-- ===== src/Discovery/Run/Complete.antt =====
-- When discovery succeeds (discoverHost of pkg/controller/discovery.go).
use cluster_api_provider_bri.Prelude.{
  String, Bool, true, false, Option, none, some, List, ◌≡◌, refl,
}
use cluster_api_provider_bri.Go.{Err}
use cluster_api_provider_bri.Go.Action.{
  M, Result, ok, err, pure, branch, continue, wrap_err, wrapped, ◌>>=◌,
}
use cluster_api_provider_bri.Endpoints.{Endpoints}
use cluster_api_provider_bri.TalosApply.{TalosClient, Stream, maintenance_client}
use cluster_api_provider_bri.Discovery.Parts.{FileInfo}
use cluster_api_provider_bri.Discovery.Run.{
  DiscoveryClient, attempt, listed, discover_net_interfaces, discover_host,
}

abbrev ended : Option Err → Bool
ended none = true
ended (some e) = false

module _ {W : Type 0} where
  -- The call returned no error.
  abbrev pub is_ok : {A : Type 0} → Result A × W → Bool
  is_ok (ok a, w) = true
  is_ok (err e, w) = false

  -- The listing came, and came to its end.
  abbrev pub is_listed : Result (Stream (Option FileInfo)) × W → Bool
  is_listed (ok s, w) = ended s.failure
  is_listed (err e, w) = false

  -- An action that succeeds in every world.
  record Succeeds {A : Type 0} (m : M W A) : Type 0 where
    pub in_world : (w : W) → is_ok (m w) ≡ true

  wrapped-ok :
      {A : Type 0} (s : String) (r : Result A × W) → is_ok r ≡ true → is_ok (wrapped s r) ≡ true
  wrapped-ok s (ok a, w) h = refl
  wrapped-ok s (err e, w) h = h

  Succeeds-wrap : {A : Type 0} (s : String) (m : M W A) → Succeeds m → Succeeds (wrap_err s m)
  Succeeds-wrap s m h = record { in_world = λ w. wrapped-ok s (m w) (h.in_world w) }

  continue-ok :
      {A B : Type 0} (r : Result A × W) (f : A → M W B)
      → is_ok r ≡ true
      → ((a : A) → Succeeds (f a))
      → is_ok (continue r f) ≡ true
  continue-ok (ok a, w) f h k = (k a).in_world w
  continue-ok (err e, w) f h k = h

  Succeeds-bind :
      {A B : Type 0} (m : M W A) (f : A → M W B)
      → Succeeds m
      → ((a : A) → Succeeds (f a))
      → Succeeds (m >>= f)
  Succeeds-bind m f h k = record { in_world = λ w. continue-ok (m w) f (h.in_world w) k }

  attempted-ok :
      {A : Type 0} (r : Result A × W)
      → is_ok (branch r (λ e. pure {A = Option A} none) (λ a. pure (some a))) ≡ true
  attempted-ok (ok a, w) = refl
  attempted-ok (err e, w) = refl

  Succeeds-attempt : {A : Type 0} (m : M W A) → Succeeds (attempt m)
  Succeeds-attempt m = record { in_world = λ w. attempted-ok (m w) }

  Succeeds-pure : {A : Type 0} (a : A) → Succeeds (pure {W = W} a)
  Succeeds-pure a = record { in_world = λ w. refl }

  ended-ok :
      (l : List (Option FileInfo)) (failure : Option Err) (w : W)
      → ended failure ≡ true
      → is_ok (listed l failure w) ≡ true
  ended-ok l none w h = refl
  ended-ok l (some e) w h = h

  listed-ok :
      (r : Result (Stream (Option FileInfo)) × W)
      → is_listed r ≡ true
      → is_ok (continue r (λ s. listed s.received s.failure)) ≡ true
  listed-ok (ok s, w) h = ended-ok s.received s.failure w h
  listed-ok (err e, w) h = h

module _ {W K T R : Type 0} (tc : TalosClient W K T R) (dc : DiscoveryClient W T) where
  Succeeds-discover_net_interfaces :
      (client : T)
      → ((w : W) → is_listed (dc.ls client "/sys/class/net" w) ≡ true)
      → Succeeds (discover_net_interfaces tc dc client)
  unfolding discover_net_interfaces
  Succeeds-discover_net_interfaces client h = record {
    in_world = λ w. listed-ok (dc.ls client "/sys/class/net" w) (h w);
  }

  -- discoverHost succeeds whatever COSI and the listing of the NUMA nodes answer, errors included, if
  -- the client opens, Version, Memory and Disks answer without an error, and the listing of the
  -- network interfaces comes to its end.
  pub discover_host-succeeds :
      (endpoints : Endpoints) (public_ip : String)
      → ((w : W) → is_ok (tc.new_maintenance endpoints w) ≡ true)
      → ((client : T) (w : W) → is_ok (dc.version client w) ≡ true)
      → ((client : T) (w : W) → is_ok (dc.memory client w) ≡ true)
      → ((client : T) (w : W) → is_ok (tc.disks client w) ≡ true)
      → ((client : T) (w : W) → is_listed (dc.ls client "/sys/class/net" w) ≡ true)
      → (w : W) → is_ok (discover_host tc dc endpoints public_ip w) ≡ true
  unfolding discover_host maintenance_client
  discover_host-succeeds endpoints public_ip opens version memory disks net w =
      (Succeeds-bind _ _ (Succeeds-wrap _ _ (record { in_world = opens })) λ c.
          Succeeds-bind _ _ (Succeeds-wrap _ _ (record { in_world = version c })) λ v.
            Succeeds-bind _ _ (Succeeds-wrap _ _ (record { in_world = memory c })) λ m.
              Succeeds-bind _ _ (Succeeds-wrap _ _ (record { in_world = disks c })) λ d.
                Succeeds-bind _ _ (Succeeds-attempt (dc.processors c)) λ p.
                  Succeeds-bind _ _ (Succeeds-attempt (dc.pci_devices c)) λ g.
                    Succeeds-bind _ _ (Succeeds-attempt (dc.kernel_cmdline c)) λ k.
                      Succeeds-bind _ _ (Succeeds-attempt (dc.ls c "/sys/devices/system/node")) λ n.
                        Succeeds-bind _ _
                          (Succeeds-wrap _ _ (Succeeds-discover_net_interfaces c (net c)))
                          λ i. Succeeds-bind _ _ (Succeeds-attempt (dc.address_statuses c)) λ a.
                            Succeeds-bind _ _ (Succeeds-attempt (dc.system_information c)) λ s.
                              Succeeds-bind _ _ (Succeeds-attempt (dc.first_hardware_addr c))
                                λ h. Succeeds-pure _).in_world
        w
