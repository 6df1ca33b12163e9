-- ===== src/SessionForwarder/Parse.antt =====
-- session-server-forwarder/src/target_pattern.rs: `from_str` and `Display` of `TargetPattern`. The
-- text forms of types that are not the repository's (`IpProtocol`, `ServiceId`, `IpAddr`, `IpNet`)
-- are an argument, `Formats`; the numeral of a `u16` is read and written here. Text is bytes, of
-- which `trim` drops the ASCII white space; the text of an error is left out, but its kind is kept.
use hopr_impls.Base.{
  ℕ, zero, suc, ◌+◌, ◌-◌, ◌*◌, ◌/◌, ◌%◌, Bool, true, false, ◌&&◌, ◌||◌, Option, none, some, List,
  [], ◌∷◌, ◌++◌, reverse, Result, ok, err, and_then, if◌then◌else◌, leb, ltb, ◌==◌, any,
}
use hopr_impls.SessionForwarder.Text.{Reason, dot, eq_ignore_ascii_case, dns_name}
use hopr_impls.SessionForwarder.Pattern.{
  IpProtocol, ProtocolPattern, any_protocol, only, HostPattern, any_host, exact_name, subdomain,
  address, network, PortPattern, any_port, exact, TargetPattern, any_target, service, stream,
}

pub record Formats : Type 0 where
  pub parse_protocol : List ℕ → Option IpProtocol
  pub print_protocol : IpProtocol → List ℕ
  pub parse_service : List ℕ → Option ℕ
  pub print_service : ℕ → List ℕ
  pub parse_address : List ℕ → Option ℕ
  pub print_address : ℕ → List ℕ
  pub is_v6 : ℕ → Bool
  pub parse_network : List ℕ → Option ℕ
  pub print_network : ℕ → List ℕ

-- The kinds of `InvalidTargetPattern`.
pub data InvalidTargetPattern : Type 0 where
  no_colon unknown_protocol bad_service missing_port bad_port bad_network bad_address :
      InvalidTargetPattern
  bad_name : Reason → InvalidTargetPattern

abbrev pub colon : ℕ
colon = 58

abbrev pub star : ℕ
star = 42

-- `*`
abbrev pub star_text : List ℕ
star_text = star ∷ []

-- `service`
abbrev pub service_text : List ℕ
service_text = 115 ∷ 101 ∷ 114 ∷ 118 ∷ 105 ∷ 99 ∷ 101 ∷ []

unfoldable pub same_text : List ℕ → List ℕ → Bool
same_text [] [] = true
same_text [] (b ∷ bs) = false
same_text (a ∷ rest) [] = false
same_text (a ∷ rest) (b ∷ bs) = a == b && same_text rest bs

abbrev pub is_white : ℕ → Bool
is_white b = b == 32 || (leb 9 b && leb b 13)

unfoldable pub trim_start : List ℕ → List ℕ
trim_start [] = []
trim_start (b ∷ bs) = if is_white b then trim_start bs else b ∷ bs

unfoldable pub trim : List ℕ → List ℕ
trim bs = reverse (trim_start (reverse (trim_start bs)))

abbrev pub with_first : ℕ → Option (List ℕ × List ℕ) → Option (List ℕ × List ℕ)
with_first b none = none
with_first b (some (front, rest)) = some (b ∷ front, rest)

-- The parts before and after the first `c`.
unfoldable pub split_once : ℕ → List ℕ → Option (List ℕ × List ℕ)
split_once c [] = none
split_once c (b ∷ bs) =
    let rest = split_once c bs in if b == c then some ([], bs) else with_first b rest

abbrev pub swapped : Option (List ℕ × List ℕ) → Option (List ℕ × List ℕ)
swapped none = none
swapped (some (front, rest)) = some (reverse rest, reverse front)

-- The parts before and after the last `c`.
unfoldable pub rsplit_once : ℕ → List ℕ → Option (List ℕ × List ℕ)
rsplit_once c bs = swapped (split_once c (reverse bs))

unfoldable pub strip_prefix : List ℕ → List ℕ → Option (List ℕ)
strip_prefix [] bs = some bs
strip_prefix (a ∷ rest) [] = none
strip_prefix (a ∷ rest) (b ∷ bs) = if a == b then strip_prefix rest bs else none

abbrev pub reversed : Option (List ℕ) → Option (List ℕ)
reversed none = none
reversed (some bs) = some (reverse bs)

unfoldable pub strip_brackets : List ℕ → Option (List ℕ)
strip_brackets bs = elim (strip_prefix (91 ∷ []) bs) [
  | none ↦ none
  | some inner ↦ reversed (strip_prefix (93 ∷ []) (reverse inner))
]

-- The digits of a number of at most 65535, after those read before.
unfoldable pub parse_digits : ℕ → List ℕ → Option ℕ
parse_digits n [] = some n
parse_digits n (b ∷ bs) =
    if leb 48 b && leb b 57 && leb (n * 10 + (b - 48)) 65535
    then parse_digits (n * 10 + (b - 48)) bs
    else none

-- `u16::from_str`: a plus sign may come first, and there is a digit.
abbrev pub digits_only : List ℕ → Option ℕ
digits_only [] = none
digits_only (b ∷ bs) = parse_digits 0 (b ∷ bs)

unfoldable pub parse_u16 : List ℕ → Option ℕ
parse_u16 [] = none
parse_u16 (b ∷ bs) = if b == 43 then digits_only bs else parse_digits 0 (b ∷ bs)

-- The numeral of a number with at most `fuel` digits, before what follows it.
unfoldable pub print_digits : ℕ → ℕ → List ℕ → List ℕ
print_digits zero n bs = bs
print_digits (suc fuel) n bs =
    if ltb n 10 then (n + 48) ∷ bs else print_digits fuel (n / 10) ((n % 10 + 48) ∷ bs)

-- A `u16` has five digits at most.
unfoldable pub print_u16 : ℕ → List ℕ
print_u16 n = print_digits 5 n []

abbrev pub or_err : {A : Type 0} → InvalidTargetPattern → Option A → Result InvalidTargetPattern A
or_err e none = err e
or_err e (some a) = ok a

abbrev pub named :
    (List ℕ → HostPattern) → Result Reason (List ℕ) → Result InvalidTargetPattern HostPattern
named f (ok name) = ok (f name)
named f (err r) = err (bad_name r)

module _ (formats : Formats) where
  open formats use {
    parse_protocol, print_protocol, parse_service, print_service, parse_address, print_address,
    is_v6, parse_network, print_network,
  }

  unfoldable pub parse_host : List ℕ → Result InvalidTargetPattern HostPattern
  parse_host host =
      if same_text host star_text then ok any_host else elim (strip_prefix (star ∷ dot ∷ []) host) [
        | some suffix ↦ named subdomain (dns_name suffix)
        | none ↦
            if any (λ b. b == 47) host
            then and_then (or_err bad_network (parse_network host)) (λ net. ok (network net))
            else elim (strip_brackets host) [
              | some literal ↦
                  and_then (or_err bad_address (parse_address literal)) (λ a. ok (address a))
              | none ↦ elim (parse_address host) [
                | some a ↦ ok (address a)
                | none ↦ named exact_name (dns_name host)
              ]
            ]
      ]

  unfoldable pub parse_port : List ℕ → Result InvalidTargetPattern PortPattern
  parse_port port =
      if same_text port star_text
      then ok any_port
      else and_then (or_err bad_port (parse_u16 port)) (λ n. ok (exact n))

  unfoldable pub parse_protocol_pattern : List ℕ → Result InvalidTargetPattern ProtocolPattern
  parse_protocol_pattern protocol =
      if same_text protocol star_text
      then ok any_protocol
      else and_then (or_err unknown_protocol (parse_protocol protocol)) (λ p. ok (only p))

  unfoldable pub parse_service_pattern : List ℕ → Result InvalidTargetPattern TargetPattern
  parse_service_pattern rest =
      if same_text rest star_text
      then ok (service none)
      else and_then (or_err bad_service (parse_service rest)) (λ id. ok (service (some id)))

  unfoldable pub parse_stream : List ℕ → List ℕ → Result InvalidTargetPattern TargetPattern
  parse_stream protocol rest = and_then (parse_protocol_pattern protocol) (λ p.
      and_then (or_err missing_port (rsplit_once colon rest)) (λ parts.
        and_then (parse_port parts.1)
          (λ n. and_then (parse_host parts.0) (λ h. ok (stream p h n)))))

  unfoldable pub from_str : List ℕ → Result InvalidTargetPattern TargetPattern
  from_str s =
      let pattern = trim s in
      if same_text pattern star_text
      then ok any_target
      else and_then (or_err no_colon (split_once colon pattern)) (λ parts.
        if eq_ignore_ascii_case parts.0 service_text
        then parse_service_pattern parts.1
        else parse_stream parts.0 parts.1)

  unfoldable pub print_host : HostPattern → List ℕ
  print_host any_host = star_text
  print_host (exact_name name) = name
  print_host (subdomain suffix) = star ∷ dot ∷ suffix
  print_host (address a) = if is_v6 a then 91 ∷ (print_address a ++ (93 ∷ [])) else print_address a
  print_host (network net) = print_network net

  unfoldable pub print_protocol_pattern : ProtocolPattern → List ℕ
  print_protocol_pattern any_protocol = star_text
  print_protocol_pattern (only p) = print_protocol p

  unfoldable pub print_port : PortPattern → List ℕ
  print_port any_port = star_text
  print_port (exact n) = print_u16 n

  -- `Display`
  unfoldable pub to_string : TargetPattern → List ℕ
  to_string any_target = star_text
  to_string (service none) = service_text ++ (colon ∷ star_text)
  to_string (service (some id)) = service_text ++ (colon ∷ print_service id)
  to_string (stream p h n) =
      print_protocol_pattern p ++ (colon ∷ (print_host h ++ (colon ∷ print_port n)))
