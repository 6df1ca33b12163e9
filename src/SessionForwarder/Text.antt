-- ===== src/SessionForwarder/Text.antt =====
-- session-server-forwarder/src/target_pattern.rs on strings, which are lists of bytes here.
use hopr_impls.Base.{
  ℕ, zero, suc, ◌+◌, Bool, true, false, ◌&&◌, ◌||◌, List, [], ◌∷◌, Result, ok, err, if◌then◌else◌,
  leb, ◌==◌,
}

abbrev pub dot : ℕ
dot = 46

-- `u8::to_ascii_lowercase` and `eq_ignore_ascii_case`
abbrev pub lower : ℕ → ℕ
lower b = if leb 65 b && leb b 90 then b + 32 else b

unfoldable pub eq_ignore_ascii_case : List ℕ → List ℕ → Bool
eq_ignore_ascii_case [] [] = true
eq_ignore_ascii_case [] (b ∷ bs) = false
eq_ignore_ascii_case (a ∷ xs) [] = false
eq_ignore_ascii_case (a ∷ xs) (b ∷ bs) = lower a == lower b && eq_ignore_ascii_case xs bs

unfoldable pub drop : ℕ → List ℕ → List ℕ
drop zero bs = bs
drop (suc n) [] = []
drop (suc n) (b ∷ bs) = drop n bs

unfoldable pub without_root_dot : List ℕ → List ℕ
without_root_dot [] = []
without_root_dot (b ∷ []) = if b == dot then [] else b ∷ []
without_root_dot (b ∷ c ∷ bs) = b ∷ without_root_dot (c ∷ bs)

abbrev pub is_ascii_alphanumeric : ℕ → Bool
is_ascii_alphanumeric b =
    (leb 48 b && leb b 57) || (leb 65 b && leb b 90) || (leb 97 b && leb b 122)

-- Letters, digits, `-`, `.` and `_`.
unfoldable pub is_dns_charset : List ℕ → Bool
is_dns_charset [] = true
is_dns_charset (b ∷ bs) =
    (is_ascii_alphanumeric b || b == 45 || b == dot || b == 95) && is_dns_charset bs

-- Why a pattern is invalid; the text is left out.
pub data Reason : Type 0 where
  empty_host_name not_a_dns_name : Reason

unfoldable pub to_ascii_lowercase : List ℕ → List ℕ
to_ascii_lowercase [] = []
to_ascii_lowercase (b ∷ bs) = lower b ∷ to_ascii_lowercase bs

abbrev pub checked_name : List ℕ → Result Reason (List ℕ)
checked_name [] = err empty_host_name
checked_name (b ∷ bs) =
    if is_dns_charset (b ∷ bs) then ok (to_ascii_lowercase (b ∷ bs)) else err not_a_dns_name

unfoldable pub dns_name : List ℕ → Result Reason (List ℕ)
dns_name name = checked_name (without_root_dot name)
