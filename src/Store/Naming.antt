-- ===== src/Store/Naming.antt =====
-- Which texts name a chain, without the code that tests them.
use openzeppelin_foundry_upg.Base.{
  ℕ, ◌≤◌, ◌≡◌, ◌≢◌, ◌⊎◌, ◌↔◌, true, false, [], ◌∷◌, All, all, length, ◌==◌, nat_eq, list_eq, arith,
  refl, Bool-cases, inl, inr,
}
use openzeppelin_foundry_upg.Base.Text.{Text, codes, text_iff}
use openzeppelin_foundry_upg.Base.Patterns.{is_digit, is_lower}
use openzeppelin_foundry_upg.Base.Result.{ok}
use openzeppelin_foundry_upg.Store.State.{
  is_identity_start, is_identity_char, matches_identity, is_forbidden, validate_chain_identity,
}

-- The code of a digit or a letter.
abbrev pub IsAlphanumeric : ℕ → Type 0
IsAlphanumeric c = ((48 ≤ c) × (c ≤ 57)) ⊎ ((65 ≤ c) × (c ≤ 90)) ⊎ ((97 ≤ c) × (c ≤ 122))

-- The code of a digit, a letter, or one of `.`, `_`, `:` and `-`.
abbrev pub IsNameCode : ℕ → Type 0
IsNameCode c = IsAlphanumeric c ⊎ (c ≡ 46) ⊎ (c ≡ 95) ⊎ (c ≡ 58) ⊎ (c ≡ 45)

-- One to 256 such codes, the first of a digit or a letter.
abbrev pub IsName : Text → Type 0
IsName [] = ⊥
IsName (c ∷ rest) = IsAlphanumeric c × (length rest ≤ 255) × All IsNameCode rest

-- A text that may name a chain.
abbrev pub IsIdentity : Text → Type 0
IsIdentity identity =
    IsName identity
    × (identity ≢ codes "__proto__")
    × (identity ≢ codes "constructor")
    × (identity ≢ codes "prototype")

is_identity_start_iff : (c : ℕ) → (is_identity_start c ≡ true) ↔ IsAlphanumeric c
unfolding is_identity_start is_digit is_lower
is_identity_start_iff c = ground arith

is_identity_char_iff : (c : ℕ) → (is_identity_char c ≡ true) ↔ IsNameCode c
unfolding is_identity_char
is_identity_char_iff c = ground (arith, is_identity_start_iff c)

all_iff : (t : Text) → (all is_identity_char t ≡ true) ↔ All IsNameCode t
all_iff [] = (λ h. tt, λ h. refl)
all_iff (c ∷ t) = (
  λ h. ((is_identity_char_iff c).0 (ground (arith, h)), (all_iff t).0 (ground (arith, h))),
  λ (now, later). ground (arith, (is_identity_char_iff c).1 now, (all_iff t).1 later),
)

matches_identity_iff : (t : Text) → (matches_identity t ≡ true) ↔ IsName t
unfolding matches_identity
matches_identity_iff [] = (λ h. absurd (ground (arith, h)), λ h. absurd h)
matches_identity_iff (c ∷ rest) = (
  λ h. (
    (is_identity_start_iff c).0 (ground (arith, h)),
    ground (arith, h),
    (all_iff rest).0 (ground (arith, h)),
  ),
  λ (first, short, codes_fit).
      ground (arith, (is_identity_start_iff c).1 first, short, (all_iff rest).1 codes_fit),
)

pub differs : (t key : Text) → t ≢ key → (t == key) ≡ false
differs t key differ = elim (Bool-cases (t == key)) [
  | inl same ↦ absurd (differ ((text_iff t key).0 same))
  | inr h ↦ h
]

is_forbidden_iff :
    (t : Text)
    → (is_forbidden t ≡ false)
      ↔ ((t ≢ codes "__proto__") × (t ≢ codes "constructor") × (t ≢ codes "prototype"))
unfolding is_forbidden
is_forbidden_iff t = (
  λ h. (
    λ e. ground (arith, h, (text_iff t (codes "__proto__")).1 e),
    λ e. ground (arith, h, (text_iff t (codes "constructor")).1 e),
    λ e. ground (arith, h, (text_iff t (codes "prototype")).1 e),
  ),
  λ (a, b, c).
      let first = differs t (codes "__proto__") a in
      let second = differs t (codes "constructor") b in
      let third = differs t (codes "prototype") c in ground (arith, first, second, third),
)

-- `validateChainIdentity` returns the identities, as they are.
pub validate_chain_identity_iff :
    (identity key : Text)
    → (validate_chain_identity identity ≡ ok key) ↔ (IsIdentity identity × (key ≡ identity))
unfolding validate_chain_identity
validate_chain_identity_iff identity key = (
  λ h.
      let name = (matches_identity_iff identity).0 (ground (arith, h)) in
      let (a, b, c) = (is_forbidden_iff identity).0 (ground (arith, h)) in
      ((name, a, b, c), ground (arith, h)),
  λ ((name, a, b, c), same).
      let allowed = (is_forbidden_iff identity).1 (a, b, c) in
      ground (arith, same, (matches_identity_iff identity).1 name, allowed),
)
