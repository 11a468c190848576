-- ===== src/Logs/Words.antt =====
-- What the translation does to one word: its digits, and how many they are.
use openzeppelin_foundry_upg.Base.{
  ℕ, zero, suc, ◌≡◌, refl, sym, ap, ◌∙◌, true, false, [], ◌∷◌, ◌++◌, length, take, drop, all, ◌==◌,
  nat_eq, list_eq, arith, length-drop, ◌⊎◌, inl, inr, Bool-cases,
}
use openzeppelin_foundry_upg.Base.Text.{Text, text_iff}
use openzeppelin_foundry_upg.Base.Patterns.{is_hex_lower, lower_char, to_lower}
use openzeppelin_foundry_upg.Base.Lowercase.{to_lower_idem}
use openzeppelin_foundry_upg.Logs.Translation.{
  strip_prefix, lower_body, prefixed, is_body, is_zeros, high_zero, AddressMapper, map_log_word,
}

lower_char-hex : (c : ℕ) → is_hex_lower c ≡ true → lower_char c ≡ c
unfolding lower_char is_hex_lower
lower_char-hex c h = ground arith

pub to_lower-hex : (t : Text) → all is_hex_lower t ≡ true → to_lower t ≡ t
unfolding to_lower
to_lower-hex [] h = refl
to_lower-hex (c ∷ t) h = ground (arith, lower_char-hex c, to_lower-hex t)

pub to_lower-take : (n : ℕ) (t : Text) → to_lower t ≡ t → to_lower (take n t) ≡ take n t
unfolding to_lower
to_lower-take zero t h = refl
to_lower-take (suc n) [] h = refl
to_lower-take (suc n) (c ∷ t) h = ground (arith, to_lower-take n t)

pub to_lower-drop : (n : ℕ) (t : Text) → to_lower t ≡ t → to_lower (drop n t) ≡ drop n t
unfolding to_lower
to_lower-drop zero t h = h
to_lower-drop (suc n) [] h = refl
to_lower-drop (suc n) (c ∷ t) h = to_lower-drop n t (ground arith)

pub lower_body-prefixed : (t : Text) → to_lower t ≡ t → lower_body (prefixed t) ≡ t
unfolding lower_body strip_prefix
lower_body-prefixed t h = h

pub all_hex-append :
    (s t : Text)
    → all is_hex_lower s ≡ true
    → all is_hex_lower t ≡ true
    → all is_hex_lower (s ++ t) ≡ true
all_hex-append [] t h k = k
all_hex-append (c ∷ s) t h k = ground (arith, all_hex-append s t)

pub all_hex-drop :
    (n : ℕ) (t : Text) → all is_hex_lower t ≡ true → all is_hex_lower (drop n t) ≡ true
all_hex-drop zero t h = h
all_hex-drop (suc n) [] h = refl
all_hex-drop (suc n) (c ∷ t) h = ground (arith, all_hex-drop n t)

pub take-append : (n : ℕ) (s t : Text) → length s ≡ n → take n (s ++ t) ≡ s
take-append zero [] t h = refl
take-append zero (c ∷ s) t h = absurd (omega arith)
take-append (suc n) [] t h = absurd (omega arith)
take-append (suc n) (c ∷ s) t h = rw (take-append n s t (omega arith))

pub drop-append : (n : ℕ) (s t : Text) → length s ≡ n → drop n (s ++ t) ≡ t
drop-append zero [] t h = refl
drop-append zero (c ∷ s) t h = absurd (omega arith)
drop-append (suc n) [] t h = absurd (omega arith)
drop-append (suc n) (c ∷ s) t h = drop-append n s t (omega arith)

-- An address word: the digits of an address after twenty-four zeros.
pub word_of_address :
    (low : Text)
    → is_body 40 low ≡ true
    → (is_body 64 (high_zero ++ low) ≡ true)
      × (take 24 (high_zero ++ low) ≡ high_zero)
      × (drop 24 (high_zero ++ low) ≡ low)
      × (to_lower (high_zero ++ low) ≡ high_zero ++ low)
unfolding is_body
word_of_address low h =
    let hex : all is_hex_lower (high_zero ++ low) ≡ true =
      all_hex-append high_zero low (unfold is_hex_lower in refl) (ground arith) in
    (ground (arith, hex), refl, refl, to_lower-hex (high_zero ++ low) hex)

pub low_of_word : (body : Text) → is_body 64 body ≡ true → is_body 40 (drop 24 body) ≡ true
unfolding is_body
low_of_word body h = ground (arith, length-drop 24 body, all_hex-drop 24 body)

-- A word that the translation changes is an address word, and becomes the word of what the mapper
-- returns.
pub record IsTranslated (mapper : AddressMapper) (body : Text) : Type 0 where
  pub word : is_body 64 body ≡ true
  pub padded : take 24 body ≡ high_zero
  pub nonzero : is_zeros (drop 24 body) ≡ false
  pub address : is_body 40 (lower_body (mapper (prefixed (drop 24 body)))) ≡ true
  pub result :
      map_log_word mapper (prefixed body)
      ≡ prefixed (high_zero ++ lower_body (mapper (prefixed (drop 24 body))))

pub IsTranslated-or_same :
    (mapper : AddressMapper) (body : Text)
    → to_lower body ≡ body
    → (map_log_word mapper (prefixed body) ≡ prefixed body) ⊎ IsTranslated mapper body
unfolding map_log_word
IsTranslated-or_same mapper body h =
    let own = lower_body-prefixed body h in
    elim (Bool-cases (is_body 64 body)) [
      | inr n ↦ inl (ground (arith, own, n))
      | inl w ↦ elim (Bool-cases (take 24 body == high_zero)) [
        | inr n ↦ inl (ground (arith, own, n))
        | inl p ↦ elim (Bool-cases (is_zeros (drop 24 body))) [
          | inl z ↦ inl (ground (arith, own, z))
          | inr z ↦ elim (Bool-cases (is_body 40 (lower_body (mapper (prefixed (drop 24 body)))))) [
            | inr n ↦ inl (ground (arith, own, n))
            | inl a ↦
                elim (Bool-cases (lower_body (mapper (prefixed (drop 24 body))) == drop 24 body)) [
                  | inl same ↦ inl (ground (arith, own, same))
                  | inr differs ↦ inr (record {
                    word = w;
                    padded = (text_iff (take 24 body) high_zero).0 p;
                    nonzero = z;
                    address = a;
                    result = ground (arith, own, w, p, z, a, differs);
                  })
                ]
          ]
        ]
      ]
    ]

-- The digits of a mapped word are as many as those of the word.
pub length-map_log_word :
    (mapper : AddressMapper) (body : Text)
    → to_lower body ≡ body
    → length (lower_body (map_log_word mapper (prefixed body))) ≡ length body
length-map_log_word mapper body h = elim (IsTranslated-or_same mapper body h) [
  | inl same ↦ ground (arith, same, lower_body-prefixed body h)
  | inr t ↦
      let mapped = lower_body (mapper (prefixed (drop 24 body))) in
      let w = word_of_address mapped t.address in
      let digits : lower_body (map_log_word mapper (prefixed body)) ≡ high_zero ++ mapped =
        ap lower_body t.result ∙ lower_body-prefixed (high_zero ++ mapped) w.3 in
      let long : length (high_zero ++ mapped) ≡ 64 = unfold is_body in ground (arith, w.0) in
      let was : length body ≡ 64 = unfold is_body in ground (arith, t.word) in
      ap length digits ∙ long ∙ sym was
]

pub to_lower-append : (s t : Text) → to_lower s ≡ s → to_lower t ≡ t → to_lower (s ++ t) ≡ s ++ t
unfolding to_lower
to_lower-append [] t h k = k
to_lower-append (c ∷ s) t h k = ground (arith, to_lower-append s t)

pub to_lower-lower_body : (t : Text) → to_lower (lower_body t) ≡ lower_body t
unfolding lower_body
to_lower-lower_body t = to_lower_idem (strip_prefix t)
