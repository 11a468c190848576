-- ===== src/Base/Lowercase.antt =====
-- Lowercasing once is enough, and keeps what is a hash a hash.
use openzeppelin_foundry_upg.Base.{ℕ, ◌≡◌, refl, true, [], ◌∷◌, arith, length, all}
use openzeppelin_foundry_upg.Base.Text.{Text}
use openzeppelin_foundry_upg.Base.Patterns.{is_hex, lower_char, to_lower, is_transaction_hash}

lower_char_idem : (c : ℕ) → lower_char (lower_char c) ≡ lower_char c
unfolding lower_char
lower_char_idem c = ground arith

lower_char-is_hex : (c : ℕ) → is_hex c ≡ true → is_hex (lower_char c) ≡ true
unfolding lower_char is_hex
lower_char-is_hex c h = ground arith

pub to_lower_idem : (t : Text) → to_lower (to_lower t) ≡ to_lower t
unfolding to_lower
to_lower_idem [] = refl
to_lower_idem (c ∷ t) = cc (lower_char_idem c, to_lower_idem t)

pub length-to_lower : (t : Text) → length (to_lower t) ≡ length t
unfolding to_lower
length-to_lower [] = refl
length-to_lower (c ∷ t) = omega (arith, length-to_lower t)

all_hex-to_lower : (t : Text) → all is_hex t ≡ true → all is_hex (to_lower t) ≡ true
unfolding to_lower
all_hex-to_lower [] h = refl
all_hex-to_lower (c ∷ t) h = ground (arith, lower_char-is_hex c, all_hex-to_lower t)

pub to_lower-is_transaction_hash :
    (t : Text) → is_transaction_hash t ≡ true → is_transaction_hash (to_lower t) ≡ true
unfolding is_transaction_hash to_lower
to_lower-is_transaction_hash [] h = cc
to_lower-is_transaction_hash (a ∷ []) h = cc
to_lower-is_transaction_hash (a ∷ b ∷ t) h = ground (arith, length-to_lower t, all_hex-to_lower t)
