-- ===== src/SessionForwarder/Matching.antt =====
-- What patterns select: names regardless of the root dot, strict subdomains, accepted names.
use hopr_impls.Base.{
  ℕ, zero, suc, ◌+◌, ◌-◌, ◌≡◌, ◌≢◌, ◌↔◌, refl, Bool, true, List, [], ◌∷◌, ◌++◌, arith, length, ok,
  Bool-cases, inl, inr, ap,
}
use hopr_impls.SessionForwarder.Text.{
  dot, eq_ignore_ascii_case, drop, without_root_dot, is_dns_charset, to_ascii_lowercase, dns_name,
  checked_name,
}
use hopr_impls.SessionForwarder.Pattern.{
  IpProtocol, dns, HostPattern, any_host, address, network, any_target, service, exact_name,
  subdomain, TargetPattern, to_stream, dot_then, is_subdomain, host_matches, matches, stream,
}

without_root_dot-append : (bs : List ℕ) → without_root_dot (bs ++ (dot ∷ [])) ≡ bs
unfolding without_root_dot
without_root_dot-append [] = refl
without_root_dot-append (b ∷ []) = refl
without_root_dot-append (b ∷ c ∷ bs) = rw (without_root_dot-append (c ∷ bs)) refl

host_matches-root_dot :
    (contains : ℕ → ℕ → Bool) (host : HostPattern) (name : List ℕ) (port : ℕ)
    → without_root_dot name ≡ name
    → host_matches contains host (dns (name ++ (dot ∷ [])) port)
      ≡ host_matches contains host (dns name port)
unfolding host_matches
host_matches-root_dot contains any_host name port h = refl
host_matches-root_dot contains (exact_name wanted) name port h =
    rw (without_root_dot-append name, h) refl
host_matches-root_dot contains (subdomain suffix) name port h =
    rw (without_root_dot-append name, h) refl
host_matches-root_dot contains (address wanted) name port h = refl
host_matches-root_dot contains (network net) name port h = refl

-- A name without a root dot and the same name with one are selected by the same patterns.
pub matches-root_dot :
    (contains : ℕ → ℕ → Bool) (p : TargetPattern) (protocol : IpProtocol) (name : List ℕ) (port : ℕ)
    → without_root_dot name ≡ name
    → matches contains p (to_stream protocol (dns (name ++ (dot ∷ [])) port))
      ≡ matches contains p (to_stream protocol (dns name port))
unfolding matches
matches-root_dot contains any_target protocol name port h = refl
matches-root_dot contains (service wanted) protocol name port h = refl
matches-root_dot contains (stream q host n) protocol name port h =
    rw (host_matches-root_dot contains host name port h) refl

length-eq_ignore : (xs bs : List ℕ) → eq_ignore_ascii_case xs bs ≡ true → length xs ≡ length bs
unfolding eq_ignore_ascii_case
length-eq_ignore [] [] h = refl
length-eq_ignore [] (b ∷ bs) h = cc
length-eq_ignore (a ∷ xs) [] h = cc
length-eq_ignore (a ∷ xs) (b ∷ bs) h = ground (arith, length-eq_ignore xs bs)

drop-append : (pre bs : List ℕ) → drop (length pre) (pre ++ bs) ≡ bs
unfolding drop
drop-append [] bs = refl
drop-append (b ∷ pre) bs = drop-append pre bs

split_at : (n : ℕ) (bs : List ℕ) → (pre : List ℕ) × (bs ≡ pre ++ drop n bs)
unfolding drop
split_at zero bs = ([], refl)
split_at (suc n) [] = ([], refl)
split_at (suc n) (b ∷ bs) = let (pre, e) = split_at n bs in (b ∷ pre, ap (λ cs. b ∷ cs) e)

length-append_lem :
    (pre : List ℕ) (b : ℕ) (bs : List ℕ) → length (pre ++ (b ∷ bs)) ≡ suc (length pre + length bs)
length-append_lem [] b bs = omega arith
length-append_lem (p ∷ pre) b bs = omega (arith, length-append_lem pre b bs)

-- A name ends in a dot and the suffix, compared without case.
abbrev pub EndsIn : List ℕ → List ℕ → Type 0
EndsIn suffix name =
    (pre : List ℕ) × (tail : List ℕ) × (name ≡ pre ++ (dot ∷ tail))
    × (eq_ignore_ascii_case suffix tail ≡ true)

dot_then_lem :
    (suffix bs : List ℕ)
    → dot_then suffix bs ≡ true
    → (tail : List ℕ) × (bs ≡ dot ∷ tail) × (eq_ignore_ascii_case suffix tail ≡ true)
dot_then_lem suffix [] h = cc
dot_then_lem suffix (b ∷ bs) h = (bs, ground arith, ground arith)

-- A subdomain pattern selects exactly the names that end, up to a root dot, in a dot and the
-- suffix, whatever the case of the letters.
pub subdomain_matches_iff :
    (contains : ℕ → ℕ → Bool) (suffix name : List ℕ) (port : ℕ)
    → (host_matches contains (subdomain suffix) (dns name port) ≡ true)
      ↔ EndsIn suffix (without_root_dot name)
unfolding host_matches is_subdomain
subdomain_matches_iff contains suffix name port = (there, back)
  where
    full : List ℕ
    full = without_root_dot name

    k : ℕ
    k = length full - length suffix - 1

    there : is_subdomain suffix full ≡ true → EndsIn suffix full
    there h =
        let (pre, e) = split_at k full in
        let (tail, d, same) = dot_then_lem suffix (drop k full) (ground arith) in
        (pre, tail, ground (arith, e, d), same)

    back : EndsIn suffix full → is_subdomain suffix full ≡ true
    back (pre, tail, e, same) =
        let n : length suffix ≡ length tail = length-eq_ignore suffix tail same in
        let m : length full ≡ suc (length pre + length tail) =
          rw e (length-append_lem pre dot tail) in
        let p : k ≡ length pre = omega arith in
        ground (arith, n, m, p, e, same, drop-append pre (dot ∷ tail))

lower-eq_ignore : (name : List ℕ) → eq_ignore_ascii_case (to_ascii_lowercase name) name ≡ true
unfolding eq_ignore_ascii_case to_ascii_lowercase
lower-eq_ignore [] = refl
lower-eq_ignore (b ∷ bs) = ground (arith, lower-eq_ignore bs)

lower-is_dns_charset :
    (name : List ℕ) → is_dns_charset name ≡ true → is_dns_charset (to_ascii_lowercase name) ≡ true
unfolding is_dns_charset to_ascii_lowercase
lower-is_dns_charset [] h = refl
lower-is_dns_charset (b ∷ bs) h = ground (arith, lower-is_dns_charset bs)

checked_name_lem :
    (name r : List ℕ)
    → checked_name name ≡ ok r
    → (r ≢ []) × (is_dns_charset r ≡ true) × (eq_ignore_ascii_case r name ≡ true)
unfolding to_ascii_lowercase
checked_name_lem [] r h = cc
checked_name_lem (b ∷ bs) r h = elim (Bool-cases (is_dns_charset (b ∷ bs))) [
  | inr bad ↦ ground (arith, bad)
  | inl good ↦
      let same : to_ascii_lowercase (b ∷ bs) ≡ r = ground (arith, good) in
      rw (← same) ((λ e. cc), lower-is_dns_charset (b ∷ bs) good, lower-eq_ignore (b ∷ bs))
]

-- A name that is accepted for a pattern is not empty, has only the characters of DNS names, and as
-- a pattern selects the name that was written.
pub dns_name-matches :
    (contains : ℕ → ℕ → Bool) (name r : List ℕ) (port : ℕ)
    → dns_name name ≡ ok r
    → (r ≢ [])
      × (is_dns_charset r ≡ true)
      × (host_matches contains (exact_name r) (dns name port) ≡ true)
unfolding dns_name host_matches
dns_name-matches contains name r port h = checked_name_lem (without_root_dot name) r h
