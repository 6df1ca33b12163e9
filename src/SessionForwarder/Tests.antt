-- ===== src/SessionForwarder/Tests.antt =====
-- Patterns and the allow list at concrete inputs.
use hopr_impls.Base.{arith, none, ℕ, ◌≡◌, ◌↔◌, refl, Bool, true, false, List, [], ◌∷◌, Result, ok}
use hopr_impls.SessionForwarder.Text.{
  eq_ignore_ascii_case, dot, without_root_dot, dns_name, is_dns_charset, to_ascii_lowercase,
}
use hopr_impls.SessionForwarder.Pattern.{
  IpOrHost, ip, dns, exact_name, subdomain, TargetPattern, stream, any_protocol, exact,
  host_matches,
}
use hopr_impls.SessionForwarder.Matching.{subdomain_matches_iff, EndsIn}
use hopr_impls.SessionForwarder.Parse.{
  Formats, from_str, parse_port, print_port, trim, trim_start, same_text, split_once, rsplit_once,
  parse_stream, parse_protocol_pattern, parse_u16, parse_digits, parse_host, strip_prefix,
}
use hopr_impls.SessionForwarder.RoundTrip.{parse_port-print_port}
use hopr_impls.SessionForwarder.AllowList.{SessionIpForwardingConfig, is_allowed}
use hopr_impls.SessionForwarder.Allowed.{is_allowed_iff, IsPermitted}

-- `a.B` and `A.b`
abbrev upper_last : List ℕ
upper_last = 97 ∷ dot ∷ 66 ∷ []

abbrev lower_all : List ℕ
lower_all = 97 ∷ dot ∷ 98 ∷ []

abbrev nowhere : ℕ → ℕ → Bool
nowhere net a = false

abbrev pattern_of_port : TargetPattern
pattern_of_port = stream any_protocol (exact_name lower_all) (exact 443)

subdomain_matches_iff_example :
    (host_matches nowhere (subdomain (98 ∷ [])) (dns upper_last 443) ≡ true)
    ↔ EndsIn (98 ∷ []) (without_root_dot upper_last)
subdomain_matches_iff_example = subdomain_matches_iff nowhere (98 ∷ []) upper_last 443

-- Every name resolves to the address 5 on port 443.
abbrev fixed : IpOrHost → Result ℕ (List (ℕ × ℕ))
fixed entry = ok ((5, 443) ∷ [])

abbrev config : SessionIpForwardingConfig
config = record {
  use_target_allow_list = true;
  target_allow_list = ip 4 443 ∷ dns lower_all 443 ∷ [];
}

is_allowed_iff_example :
    (is_allowed fixed config (ip 5 443) ((5, 443) ∷ []) ≡ true)
    ↔ IsPermitted fixed config (ip 5 443) ((5, 443) ∷ [])
is_allowed_iff_example = is_allowed_iff fixed config (ip 5 443) ((5, 443) ∷ [])

-- A language of addresses and protocols with no words.
abbrev no_formats : Formats
no_formats = record {
  parse_protocol = λ s. none;
  print_protocol = λ p. [];
  parse_service = λ s. none;
  print_service = λ id. [];
  parse_address = λ s. none;
  print_address = λ a. [];
  is_v6 = λ a. false;
  parse_network = λ s. none;
  print_network = λ net. [];
}

parse_port-print_port_example :
    parse_port no_formats (print_port no_formats (exact 8080)) ≡ ok (exact 8080)
parse_port-print_port_example = parse_port-print_port no_formats (exact 8080) (omega arith)

-- ` *:*.a.b:443`, with a space in front
abbrev written : List ℕ
written = 32 ∷ 42 ∷ 58 ∷ 42 ∷ 46 ∷ 97 ∷ 46 ∷ 98 ∷ 58 ∷ 52 ∷ 52 ∷ 51 ∷ []

written_parses :
    from_str no_formats written ≡ ok (stream any_protocol (subdomain lower_all) (exact 443))
unfolding from_str trim trim_start same_text split_once rsplit_once parse_stream
    parse_protocol_pattern parse_port parse_u16 parse_digits parse_host strip_prefix dns_name
    without_root_dot is_dns_charset to_ascii_lowercase eq_ignore_ascii_case
written_parses = refl
