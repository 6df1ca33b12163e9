-- ===== src/SessionForwarder/RoundTrip.antt =====
-- What is printed of a port pattern is read back.
use native.Mathlib.Nat.{pow-suc}
use hopr_impls.Base.{
  ℕ, zero, suc, ◌+◌, ◌-◌, ◌*◌, ◌/◌, ◌%◌, ◌^◌, ◌≤◌, ◌<◌, ◌≡◌, ◌≢◌, refl, true, false, some, List, [],
  ◌∷◌, ok, arith, leb, ltb, Bool-cases, inl, inr, ◌∙◌,
}
use hopr_impls.SessionForwarder.Pattern.{PortPattern, any_port, exact}
use hopr_impls.SessionForwarder.Parse.{
  Formats, star_text, same_text, parse_digits, parse_u16, print_digits, print_u16, parse_port,
  print_port,
}

-- A digit more is read as it was printed.
read_digit :
    (m d : ℕ) (bs : List ℕ)
    → d < 10
    → m * 10 + d ≤ 65535
    → parse_digits m ((d + 48) ∷ bs) ≡ parse_digits (m * 10 + d) bs
unfolding parse_digits
read_digit m d bs small fits =
    let e : d + 48 - 48 ≡ d = omega arith in
    let last : leb (m * 10 + d) 65535 ≡ true = ground arith in
    let low : leb 48 (d + 48) ≡ true = ground arith in
    let high : leb (d + 48) 57 ≡ true = ground arith in rw (e, low, high, last) refl

zero_of : (n : ℕ) → n < 1 → n ≡ 0
zero_of n h = omega arith

parse_digits-print_digits :
    (fuel n : ℕ) (bs : List ℕ)
    → n < 10 ^ fuel
    → n ≤ 65535
    → parse_digits 0 (print_digits fuel n bs) ≡ parse_digits n bs
unfolding print_digits
parse_digits-print_digits zero n bs lt fits = rw (zero_of n lt) refl
parse_digits-print_digits (suc fuel) n bs lt fits = elim (Bool-cases (ltb n 10)) [
  | inl small ↦
      let r : parse_digits 0 ((n + 48) ∷ bs) ≡ parse_digits (0 * 10 + n) bs =
        read_digit 0 n bs (ground arith) (omega arith) in
      let same : 0 * 10 + n ≡ n = omega arith in rw (small, print_digits) (rw same at r)
  | inr large ↦
      let pow : 10 ^ suc fuel ≡ 10 ^ fuel * 10 = pow-suc 10 fuel in
      let whole : n / 10 * 10 + n % 10 ≡ n = omega arith in
      let first : parse_digits (n / 10) ((n % 10 + 48) ∷ bs)
          ≡ parse_digits (n / 10 * 10 + n % 10) bs =
        read_digit (n / 10) (n % 10) bs (omega arith) (omega (arith, whole)) in
      rw (large, print_digits)
        (parse_digits-print_digits fuel (n / 10) ((n % 10 + 48) ∷ bs) (omega (arith, pow))
            (omega arith)
          ∙ (rw whole at first))
]

print_digits-ne-nil : (fuel n b : ℕ) (bs : List ℕ) → print_digits fuel n (b ∷ bs) ≢ []
unfolding print_digits
print_digits-ne-nil zero n b bs e = cc
print_digits-ne-nil (suc fuel) n b bs e =
    ground (arith, e, print_digits-ne-nil fuel (n / 10) (n % 10 + 48) (b ∷ bs))

first_digit : (n : ℕ) → print_digits 5 n [] ≢ []
unfolding print_digits
first_digit n e = ground (arith, e, print_digits-ne-nil 4 (n / 10) (n % 10 + 48) [])

-- Digits are not a sign.
parse_u16-digits :
    (n : ℕ) (bs : List ℕ) → bs ≢ [] → parse_digits 0 bs ≡ some n → parse_u16 bs ≡ some n
unfolding parse_u16 parse_digits
parse_u16-digits n [] ne h = absurd (ne refl)
parse_u16-digits n (b ∷ bs) ne h = ground arith

-- Digits are not a star.
digits_not_star :
    (n : ℕ) (bs : List ℕ) → parse_digits 0 bs ≡ some n → same_text bs star_text ≡ false
unfolding same_text parse_digits
digits_not_star n [] h = refl
digits_not_star n (b ∷ bs) h = ground arith

abbrev pub IsU16 : PortPattern → Type 0
IsU16 any_port = Unit
IsU16 (exact n) = n < 2 ^ 16

-- A port pattern, whose port is a `u16`, is read back as it was printed.
pub parse_port-print_port :
    (formats : Formats) (p : PortPattern)
    → IsU16 p
    → parse_port formats (print_port formats p) ≡ ok p
unfolding parse_port print_port print_u16 same_text parse_digits
parse_port-print_port formats any_port u = refl
parse_port-print_port formats (exact n) u =
    let printed : parse_digits 0 (print_digits 5 n []) ≡ some n =
      parse_digits-print_digits 5 n [] (omega arith) (omega arith) in
    let ne : print_digits 5 n [] ≢ [] = first_digit n in
    let p = parse_u16-digits n (print_digits 5 n []) ne printed in
    let s = digits_not_star n (print_digits 5 n []) printed in rw (s, p, parse_port) refl
