-- ===== src/Main/Flags.antt =====
-- `main` of main.go, behind the parsing of the flags, and what run prints before it serves.
use proxysim.Prelude.{
  ◌≡◌, Bool, true, false, not, List, [], ◌∷◌, ◌++◌, Text, codes, is_nil, if◌then◌else◌, arith,
}
use proxysim.Strings.Signed.{ℤ, pos}
use proxysim.Main.{Config, Outside, Host, Exit, split_suffixes, only_sim_of, trust_ca, start}

-- The flags, each with its value.
pub record Flags : Type 0 where
  pub port : ℤ
  pub ca_dir : Text
  pub verbose : Bool
  pub exclude : Text
  pub trust : Bool
  pub trust_set : Text
  pub device : Text
  pub ui : Bool
  pub ui_port : ℤ
  pub ui_history : ℤ
  pub only_sim : Bool
  pub app : Text
  pub system_proxy : Bool
  pub no_trust : Bool

-- the values of flags that are not given
abbrev pub default_flags : Flags
default_flags = record {
  port = pos 8888;
  ca_dir = codes "~/.proxysim";
  verbose = false;
  exclude = [];
  trust = false;
  trust_set = [];
  device = [];
  ui = false;
  ui_port = pos 8889;
  ui_history = pos 1000;
  only_sim = false;
  app = [];
  system_proxy = false;
  no_trust = false;
}

unfoldable pub config_of : Flags → Config
unfolding split_suffixes
config_of f = record {
  port = f.port;
  ca_dir = f.ca_dir;
  verbose = f.verbose;
  exclude = f.exclude;
  trust_set = f.trust_set;
  device = f.device;
  ui = f.ui;
  ui_port = f.ui_port;
  ui_history = f.ui_history;
  only_sim = f.only_sim;
  apps = split_suffixes f.app;
  system_proxy = f.system_proxy;
  no_trust = f.no_trust;
}

-- `printBanner`, for the certificate's path and fingerprint
unfoldable pub banner : Text → Text → Text → Text
banner addr cert_path fingerprint =
    codes "proxysim listening on http://"
    ++ (addr
        ++ (codes "\nCA:          "
            ++ (cert_path
                ++ (codes "\nFingerprint: "
                    ++ (fingerprint
                        ++ (codes
                              "\n\nTrust the CA in the booted simulator:\n  xcrun simctl keychain booted add-root-cert "
                            ++ (cert_path ++ codes "\n\n")))))))

join_comma : List Text → Text
join_comma [] = []
join_comma (a ∷ []) = a
join_comma (a ∷ b ∷ rest) = a ++ (codes ", " ++ join_comma (b ∷ rest))

-- what is said of the filter
unfoldable pub notice : Config → Text
unfolding join_comma
notice cfg =
    if not (is_nil cfg.apps)
    then codes "Intercepting only apps: "
      ++ (join_comma cfg.apps ++ codes " (all other traffic tunnelled)\n\n")
    else if only_sim_of cfg
    then codes "Intercepting only iOS Simulator traffic (host traffic tunnelled)\n\n"
    else []

module _ {Key Cert LeafKey Sys Sims : Type 0} (o : Outside Key Cert LeafKey Sys Sims) where
  unfoldable pub main : Flags → Host Sys Sims → Exit Sys Sims
  unfolding start
  main f h = start o f.trust (config_of f) h

  -- With -trust nothing is served: no address is listened on, and the certificate authority's files
  -- and the system proxy stay as they are, whether the installation succeeds or not.
  pub main_trust :
      (f : Flags) (h : Host Sys Sims)
      → f.trust ≡ true
      → ((main f h).0.bound ≡ h.bound) × ((main f h).0.store ≡ h.store) × ((main f h).0.mac ≡ h.mac)
  unfolding main start trust_ca
  main_trust f h e = ground (arith, e)
