-- ===== src/SessionForwarder/Pattern.antt =====
-- session-server-forwarder/src/target_pattern.rs: patterns and matching. An IP address is an opaque
-- number, and the membership of an address in a network (`IpNet::contains`) is an argument.
use hopr_impls.Base.{
  ℕ, ◌+◌, ◌-◌, Bool, true, false, ◌&&◌, Option, none, some, List, [], ◌∷◌, length, if◌then◌else◌,
  leb, ◌==◌,
}
use hopr_impls.SessionForwarder.Text.{dot, eq_ignore_ascii_case, drop, without_root_dot}

pub data IpProtocol : Type 0 where
  tcp udp : IpProtocol

abbrev pub same_protocol : IpProtocol → IpProtocol → Bool
same_protocol tcp tcp = true
same_protocol udp udp = true
same_protocol tcp udp = false
same_protocol udp tcp = false

-- `IpOrHost`: an address or a name, with a port.
pub data IpOrHost : Type 0 where
  ip : (address port : ℕ) → IpOrHost
  dns : (name : List ℕ) → (port : ℕ) → IpOrHost

abbrev pub port_of : IpOrHost → ℕ
port_of (ip address port) = port
port_of (dns name port) = port

pub data ProtocolPattern : Type 0 where
  any_protocol : ProtocolPattern
  only : IpProtocol → ProtocolPattern

pub data HostPattern : Type 0 where
  any_host : HostPattern
  exact_name subdomain : List ℕ → HostPattern
  address network : ℕ → HostPattern

pub data PortPattern : Type 0 where
  any_port : PortPattern
  exact : ℕ → PortPattern

pub data TargetPattern : Type 0 where
  any_target : TargetPattern
  service : Option ℕ → TargetPattern
  stream : ProtocolPattern → HostPattern → PortPattern → TargetPattern

pub data UnsealedTarget : Type 0 where
  to_stream : IpProtocol → IpOrHost → UnsealedTarget
  to_service : ℕ → UnsealedTarget

unfoldable pub protocol_matches : ProtocolPattern → IpProtocol → Bool
protocol_matches any_protocol p = true
protocol_matches (only wanted) p = same_protocol wanted p

unfoldable pub port_matches : PortPattern → ℕ → Bool
port_matches any_port p = true
port_matches (exact wanted) p = wanted == p

-- The byte where the suffix would begin is a dot, and the rest is the suffix.
abbrev pub dot_then : List ℕ → List ℕ → Bool
dot_then suffix [] = false
dot_then suffix (b ∷ bs) = b == dot && eq_ignore_ascii_case suffix bs

unfoldable pub is_subdomain : List ℕ → List ℕ → Bool
is_subdomain suffix name =
    if leb (length suffix + 1) (length name)
    then dot_then suffix (drop (length name - length suffix - 1) name)
    else false

module _ (contains : ℕ → ℕ → Bool) where
  unfoldable pub host_matches : HostPattern → IpOrHost → Bool
  host_matches any_host h = true
  host_matches (exact_name wanted) (dns name port) =
      eq_ignore_ascii_case wanted (without_root_dot name)
  host_matches (subdomain suffix) (dns name port) = is_subdomain suffix (without_root_dot name)
  host_matches (address wanted) (ip a port) = wanted == a
  host_matches (network net) (ip a port) = contains net a
  host_matches (exact_name wanted) (ip a port) = false
  host_matches (subdomain suffix) (ip a port) = false
  host_matches (address wanted) (dns name port) = false
  host_matches (network net) (dns name port) = false

  unfoldable pub matches : TargetPattern → UnsealedTarget → Bool
  matches any_target t = true
  matches (service none) (to_service id) = true
  matches (service (some wanted)) (to_service id) = wanted == id
  matches (service wanted) (to_stream p h) = false
  matches (stream p h n) (to_service id) = false
  matches (stream p h n) (to_stream tp th) =
      protocol_matches p tp && port_matches n (port_of th) && host_matches h th
