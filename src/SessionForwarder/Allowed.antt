-- ===== src/SessionForwarder/Allowed.antt =====
-- Which targets the allow list lets through.
use hopr_impls.Base.{
  ℕ, ◌≡◌, ◌⊎◌, ◌↔◌, inl, inr, refl, Bool, true, false, ◌&&◌, ◌||◌, List, [], ◌∷◌, ◌++◌, Result,
  arith, any, All, Has, Bool-cases,
}
use hopr_impls.SessionForwarder.Pattern.{IpOrHost}
use hopr_impls.SessionForwarder.AllowList.{
  SessionIpForwardingConfig, same_address, is_address, is_name, is_listed, all_listed, or_nothing,
  is_looked_up, resolve_listed_names, all_allowed, is_allowed,
}

any-append :
    {A : Type 0} (p : A → Bool) (xs ys : List A) → any p (xs ++ ys) ≡ (any p xs || any p ys)
unfolding any
any-append p [] ys = refl
any-append p (x ∷ xs) ys = ground (arith, any-append p xs ys)

-- A listed entry that passes a test.
abbrev pub IsSome : {A : Type 0} → (A → Bool) → List A → Type 0
IsSome {A = A} p xs = (x : A) × Has x xs × (p x ≡ true)

any-IsSome : {A : Type 0} (p : A → Bool) (xs : List A) → any p xs ≡ true → IsSome p xs
unfolding any
any-IsSome p [] h = cc
any-IsSome p (x ∷ xs) h = elim (Bool-cases (p x)) [
  | inl holds ↦ (x, inl refl, holds)
  | inr fails ↦ let (y, m, e) = any-IsSome p xs (ground (arith, fails)) in (y, inr m, e)
]

IsSome-any : {A : Type 0} (p : A → Bool) (xs : List A) → IsSome p xs → any p xs ≡ true
unfolding any
IsSome-any p [] (y, m, h) = elim m [ ]
IsSome-any p (x ∷ xs) (y, inl here, h) = ground (arith, here)
IsSome-any p (x ∷ xs) (y, inr m, h) = ground (arith, IsSome-any p xs (y, m, h))

module _ (resolve : IpOrHost → Result ℕ (List (ℕ × ℕ))) where
  -- A name on the port of one of the addresses wanted, that resolves to the address now.
  abbrev pub accounts_for : List (ℕ × ℕ) → ℕ × ℕ → IpOrHost → Bool
  accounts_for wanted a entry =
      is_looked_up resolve wanted entry && any (same_address a) (or_nothing (resolve entry))

  -- The address is listed, or a listed name accounts for it.
  abbrev pub IsCovered : List IpOrHost → List (ℕ × ℕ) → ℕ × ℕ → Type 0
  IsCovered list wanted a = IsSome (is_address a) list ⊎ IsSome (accounts_for wanted a) list

  any-resolve :
      (list : List IpOrHost) (wanted : List (ℕ × ℕ)) (a : ℕ × ℕ)
      → any (same_address a) (resolve_listed_names resolve list wanted)
        ≡ any (accounts_for wanted a) list
  unfolding any resolve_listed_names
  any-resolve [] wanted a = refl
  any-resolve (entry ∷ list) wanted a = ground (
    arith,
    any-resolve list wanted a,
    any-append (same_address a) (or_nothing (resolve entry))
        (resolve_listed_names resolve list wanted),
  )

  all_allowed-All :
      (list : List IpOrHost) (by_name wanted rest : List (ℕ × ℕ))
      → ((a : ℕ × ℕ)
          → any (same_address a) by_name ≡ true
          → any (accounts_for wanted a) list ≡ true)
      → all_allowed resolve list by_name rest ≡ true
      → All (IsCovered list wanted) rest
  unfolding all_allowed is_listed
  all_allowed-All list by_name wanted [] n h = tt
  all_allowed-All list by_name wanted (a ∷ rest) n h = elim (Bool-cases (is_listed list a)) [
    | inl holds ↦ (
      inl (any-IsSome (is_address a) list holds),
      all_allowed-All list by_name wanted rest n (ground (arith, holds)),
    )
    | inr fails ↦ elim (Bool-cases (any (same_address a) by_name)) [
      | inr none_left ↦ absurd (ground (arith, fails, none_left))
      | inl found ↦ (
        inr (any-IsSome (accounts_for wanted a) list (n a found)),
        all_allowed-All list by_name wanted rest n (ground (arith, fails, found)),
      )
    ]
  ]

  All-all_allowed :
      (list : List IpOrHost) (by_name wanted rest : List (ℕ × ℕ))
      → ((a : ℕ × ℕ)
          → any (accounts_for wanted a) list ≡ true
          → any (same_address a) by_name ≡ true)
      → All (IsCovered list wanted) rest
      → all_allowed resolve list by_name rest ≡ true
  unfolding all_allowed is_listed
  All-all_allowed list by_name wanted [] n all = refl
  All-all_allowed list by_name wanted (a ∷ rest) n (inl found, all) =
      ground (
        arith,
        IsSome-any (is_address a) list found,
        All-all_allowed list by_name wanted rest n all,
      )
  All-all_allowed list by_name wanted (a ∷ rest) n (inr found, all) = ground (
    arith,
    n a (IsSome-any (accounts_for wanted a) list found),
    All-all_allowed list by_name wanted rest n all,
  )

  all_listed-all_allowed :
      (list : List IpOrHost) (rest : List (ℕ × ℕ))
      → all_listed list rest ≡ true
      → all_allowed resolve list [] rest ≡ true
  unfolding all_listed all_allowed any
  all_listed-all_allowed list [] h = refl
  all_listed-all_allowed list (a ∷ rest) h = ground (arith, all_listed-all_allowed list rest)

  -- When a session may be forwarded to the target with these resolved addresses.
  abbrev pub IsPermitted : SessionIpForwardingConfig → IpOrHost → List (ℕ × ℕ) → Type 0
  IsPermitted cfg target resolved =
      (cfg.use_target_allow_list ≡ false)
      ⊎ (IsSome (is_name target) cfg.target_allow_list
          ⊎ All (IsCovered cfg.target_allow_list resolved) resolved)

  -- A target is allowed exactly if the allow list is off, or the list holds its name on its port, or
  -- each resolved address is listed literally or resolved to by a listed name on the port of one of
  -- the resolved addresses.
  pub is_allowed_iff :
      (cfg : SessionIpForwardingConfig) (target : IpOrHost) (resolved : List (ℕ × ℕ))
      → (is_allowed resolve cfg target resolved ≡ true) ↔ IsPermitted cfg target resolved
  unfolding is_allowed any
  is_allowed_iff cfg target resolved = (there, back)
    where
      list : List IpOrHost
      list = cfg.target_allow_list

      there : is_allowed resolve cfg target resolved ≡ true → IsPermitted cfg target resolved
      there h = elim (Bool-cases cfg.use_target_allow_list) [
        | inr off ↦ inl off
        | inl on ↦ elim (Bool-cases (any (is_name target) list)) [
          | inl named ↦ inr (inl (any-IsSome (is_name target) list named))
          | inr other ↦ elim (Bool-cases (all_listed list resolved)) [
            | inl all ↦ inr (
                inr (
                  all_allowed-All list [] resolved resolved (λ a e. cc)
                    (ground (arith, on, other, all))))
            | inr some_not ↦ inr (
                inr (
                  all_allowed-All list (resolve_listed_names resolve list resolved) resolved
                    resolved (λ a e. ground (arith, e, any-resolve list resolved a))
                    (ground (arith, on, other, some_not))))
          ]
        ]
      ]

      back : IsPermitted cfg target resolved → is_allowed resolve cfg target resolved ≡ true
      back (inl off) = ground (arith, off)
      back (inr (inl named)) = ground (arith, IsSome-any (is_name target) list named)
      back (inr (inr all)) = ground (
        arith,
        all_listed-all_allowed list resolved,
        All-all_allowed list (resolve_listed_names resolve list resolved) resolved resolved
            (λ a e. ground (arith, e, any-resolve list resolved a)) all,
      )
