-- ===== src/SessionForwarder/AllowList.antt =====
-- session-server-forwarder/src/allow_list.rs. A socket address is an IP address and a port. The
-- lookup of a name is an argument, `resolve`, whose error is an opaque number; the concurrent
-- lookups are one after the other here.
use hopr_impls.Base.{
  ℕ, Bool, true, false, not, ◌&&◌, List, [], ◌∷◌, ◌++◌, Result, ok, err, if◌then◌else◌, ◌==◌, any,
}
use hopr_impls.SessionForwarder.Text.{eq_ignore_ascii_case, without_root_dot}
use hopr_impls.SessionForwarder.Pattern.{IpOrHost, ip, dns, port_of}

pub record SessionIpForwardingConfig : Type 0 where
  pub use_target_allow_list : Bool
  pub target_allow_list : List IpOrHost

abbrev pub is_dns : IpOrHost → Bool
is_dns (dns name port) = true
is_dns (ip a port) = false

abbrev pub same_address : ℕ × ℕ → ℕ × ℕ → Bool
same_address a b = a.0 == b.0 && a.1 == b.1

abbrev pub is_address : ℕ × ℕ → IpOrHost → Bool
is_address addr (ip a port) = same_address addr (a, port)
is_address addr (dns name port) = false

-- The entry is the target's name, on its port.
abbrev pub is_name : IpOrHost → IpOrHost → Bool
is_name (dns name port) (dns listed listed_port) =
    listed_port == port && eq_ignore_ascii_case (without_root_dot listed) (without_root_dot name)
is_name (ip a port) entry = false
is_name (dns name port) (ip a p) = false

unfoldable pub is_listed : List IpOrHost → ℕ × ℕ → Bool
is_listed list addr = any (is_address addr) list

unfoldable pub all_listed : List IpOrHost → List (ℕ × ℕ) → Bool
all_listed list [] = true
all_listed list (a ∷ rest) = is_listed list a && all_listed list rest

abbrev pub or_nothing : Result ℕ (List (ℕ × ℕ)) → List (ℕ × ℕ)
or_nothing (ok addrs) = addrs
or_nothing (err e) = []

module _ (resolve : IpOrHost → Result ℕ (List (ℕ × ℕ))) where
  -- The entry is a name that could account for one of the wanted addresses.
  abbrev pub is_looked_up : List (ℕ × ℕ) → IpOrHost → Bool
  is_looked_up wanted entry = is_dns entry && any (λ (a : ℕ × ℕ). a.1 == port_of entry) wanted

  unfoldable pub resolve_listed_names : List IpOrHost → List (ℕ × ℕ) → List (ℕ × ℕ)
  resolve_listed_names [] wanted = []
  resolve_listed_names (entry ∷ list) wanted =
      if is_looked_up wanted entry
      then or_nothing (resolve entry) ++ resolve_listed_names list wanted
      else resolve_listed_names list wanted

  -- The loop over the resolved addresses.
  unfoldable pub all_allowed : List IpOrHost → List (ℕ × ℕ) → List (ℕ × ℕ) → Bool
  all_allowed list by_name [] = true
  all_allowed list by_name (a ∷ rest) =
      if not (is_listed list a) && not (any (same_address a) by_name)
      then false
      else all_allowed list by_name rest

  unfoldable pub is_allowed : SessionIpForwardingConfig → IpOrHost → List (ℕ × ℕ) → Bool
  is_allowed cfg target resolved =
      let list = cfg.target_allow_list in
      if not cfg.use_target_allow_list
      then true
      else if any (is_name target) list
      then true
      else all_allowed list
          (if all_listed list resolved then [] else resolve_listed_names list resolved) resolved
