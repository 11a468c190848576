-- ===== src/Logs/RoundTrip.antt =====
-- The two directions of the translation undo each other, and keep the length of the data.
use openzeppelin_foundry_upg.Base.{
  ℕ, zero, suc, ◌*◌, ◌/◌, ◌≡◌, ◌≤◌, refl, sym, ap, ◌∙◌, Bool, true, false, not, ◌&&◌, ◌||◌, [], ◌∷◌,
  ◌++◌, length, take, drop, is_empty, ◌==◌, nat_eq, list_eq, arith, length-append, length-drop,
  length-take, take-append-drop, inl, inr, Bool-cases,
}
use openzeppelin_foundry_upg.Base.Text.{Text, text_iff}
use openzeppelin_foundry_upg.Base.Patterns.{to_lower}
use openzeppelin_foundry_upg.Logs.Translation.{
  lower_body, prefixed, is_body, is_zeros, high_zero, AddressMapper, map_log_word, map_words,
  map_log_data,
}
use openzeppelin_foundry_upg.Logs.Words.{
  to_lower-take, to_lower-drop, lower_body-prefixed, take-append, drop-append, word_of_address,
  low_of_word, length-map_log_word, to_lower-append, to_lower-lower_body,
}

-- The digits that a mapper returns for an address of these digits.
abbrev pub mapped_digits : AddressMapper → Text → Text
mapped_digits mapper low = lower_body (mapper (prefixed low))

-- `forth` returns a nonzero address for this one, and `back` returns this one for that.
unfoldable pub undoes : AddressMapper → AddressMapper → Text → Bool
undoes forth back low =
    let there = mapped_digits forth low in
    is_body 40 there && not (is_zeros there) && (mapped_digits back there == low)

abbrev word_digits : AddressMapper → Text → Text
word_digits mapper body = lower_body (map_log_word mapper (prefixed body))

abbrev is_address_word : Text → Bool
is_address_word body =
    is_body 64 body && (take 24 body == high_zero) && not (is_zeros (drop 24 body))

-- `back` undoes `forth` on the address of each word that holds one.
unfoldable pub is_undone : AddressMapper → AddressMapper → ℕ → Text → Bool
is_undone forth back zero body = true
is_undone forth back (suc n) body =
    (not (is_address_word (take 64 body)) || undoes forth back (drop 24 (take 64 body)))
    && is_undone forth back n (drop 64 body)

word_digits-other :
    (mapper : AddressMapper) (body : Text)
    → to_lower body ≡ body
    → is_address_word body ≡ false
    → word_digits mapper body ≡ body
unfolding map_log_word
word_digits-other mapper body h other = ground (arith, lower_body-prefixed body h)

word_digits-address :
    (mapper : AddressMapper) (low : Text)
    → is_body 40 low ≡ true
    → is_zeros low ≡ false
    → is_body 40 (mapped_digits mapper low) ≡ true
    → word_digits mapper (high_zero ++ low) ≡ high_zero ++ mapped_digits mapper low
unfolding map_log_word
word_digits-address mapper low a z m =
    let w = word_of_address low a in
    let v = word_of_address (mapped_digits mapper low) m in
    let own = lower_body-prefixed (high_zero ++ low) w.3 in
    let after = lower_body-prefixed (high_zero ++ mapped_digits mapper low) v.3 in
    ground (
      arith,
      own,
      after,
      w.0,
      (text_iff high_zero high_zero).1 refl,
      text_iff (mapped_digits mapper low) low,
    )

-- What the loop over the words returns is in lower case and as long as what it is given.
map_words_shape :
    (mapper : AddressMapper) (n : ℕ) (body : Text)
    → to_lower body ≡ body
    → n * 64 ≤ length body
    → (to_lower (map_words mapper n body) ≡ map_words mapper n body)
      × (length (map_words mapper n body) ≡ length body)
unfolding map_words
map_words_shape mapper zero body h long = (h, refl)
map_words_shape mapper (suc n) body h long =
    let first = word_digits mapper (take 64 body) in
    let rest = map_words mapper n (drop 64 body) in
    let (low, size) =
      map_words_shape mapper n (drop 64 body) (to_lower-drop 64 body h)
        (omega (arith, length-drop 64 body)) in
    let front = length-map_log_word mapper (take 64 body) (to_lower-take 64 body h) in
    (
      to_lower-append first rest
          (to_lower-lower_body (map_log_word mapper (prefixed (take 64 body)))) low,
      omega
          (arith, length-append first rest, front, size, length-take 64 body, length-drop 64 body),
    )

-- The digits of mapped data.
map_log_data_lem :
    (mapper : AddressMapper) (d : Text)
    → lower_body (map_log_data mapper d)
      ≡ map_words mapper (length (lower_body d) / 64) (lower_body d)
unfolding map_log_data map_words is_empty
map_log_data_lem mapper d = go (lower_body d) refl
  where
    go :
        (b : Text)
        → lower_body d ≡ b
        → lower_body (map_log_data mapper d)
          ≡ map_words mapper (length (lower_body d) / 64) (lower_body d)
    go [] e = ground (arith, lower_body-prefixed [] (unfold to_lower in refl))
    go (c ∷ b) e =
        let n = length (lower_body d) / 64 in
        let (low, size) =
          map_words_shape mapper n (lower_body d) (to_lower-lower_body d) (omega arith) in
        ground (arith, lower_body-prefixed (map_words mapper n (lower_body d)) low)

&&-parts : (a b : Bool) → (a && b) ≡ true → (a ≡ true) × (b ≡ true)
&&-parts a b h = ground arith

module _ (forth back : AddressMapper) where
  word_digits_back :
      (body : Text)
      → to_lower body ≡ body
      → (not (is_address_word body) || undoes forth back (drop 24 body)) ≡ true
      → word_digits back (word_digits forth body) ≡ body
  unfolding undoes
  word_digits_back body h undone_word = elim (Bool-cases (is_address_word body)) [
    | inl word ↦
        let low = drop 24 body in
        let whole : high_zero ++ low ≡ body =
          ap (λ s. s ++ drop 24 body) (sym ((text_iff (take 24 body) high_zero).0 (ground arith)))
          ∙ take-append-drop 24 body in
        let a = low_of_word body (ground arith) in
        let z : is_zeros low ≡ false = ground arith in
        let a' : is_body 40 (mapped_digits forth low) ≡ true = ground (arith, undone_word, word) in
        let z' : is_zeros (mapped_digits forth low) ≡ false = ground (arith, undone_word, word) in
        let undone : mapped_digits back (mapped_digits forth low) ≡ low =
          (text_iff (mapped_digits back (mapped_digits forth low)) low).0
            (ground (arith, undone_word, word)) in
        let a'' : is_body 40 (mapped_digits back (mapped_digits forth low)) ≡ true =
          ap (is_body 40) undone ∙ a in
        ap (λ b. word_digits back (word_digits forth b)) (sym whole)
        ∙ ap (word_digits back) (word_digits-address forth low a z a')
        ∙ word_digits-address back (mapped_digits forth low) a' z' a''
        ∙ ap (λ d. high_zero ++ d) undone
        ∙ whole
    | inr other ↦
        ap (word_digits back) (word_digits-other forth body h other)
        ∙ word_digits-other back body h other
  ]

  map_words_back :
      (n : ℕ) (body : Text)
      → to_lower body ≡ body
      → n * 64 ≤ length body
      → is_undone forth back n body ≡ true
      → map_words back n (map_words forth n body) ≡ body
  unfolding map_words is_undone
  map_words_back zero body h long u = refl
  map_words_back (suc n) body h long u =
      let (here, after) =
        &&-parts
          (not (is_address_word (take 64 body)) || undoes forth back (drop 24 (take 64 body)))
          (is_undone forth back n (drop 64 body)) u in
      let front = to_lower-take 64 body h in
      let first = word_digits forth (take 64 body) in
      let width : length first ≡ 64 =
        length-map_log_word forth (take 64 body) front ∙ omega (arith, length-take 64 body) in
      let rest = map_words forth n (drop 64 body) in
      let again =
        map_words_back n (drop 64 body) (to_lower-drop 64 body h)
          (omega (arith, length-drop 64 body)) after in
      let undone : word_digits back (take 64 (first ++ rest)) ≡ take 64 body =
        ap (word_digits back) (take-append 64 first rest width)
        ∙ word_digits_back (take 64 body) front here in
      let later : map_words back n (drop 64 (first ++ rest)) ≡ drop 64 body =
        ap (map_words back n) (drop-append 64 first rest width) ∙ again in
      cc (undone, later, take-append-drop 64 body)

  -- Data that is translated one way and then back has the digits of the original, in lower case,
  -- when the second mapper undoes the first on the addresses that the words of the data hold.
  pub map_log_data_back :
      (d : Text)
      → is_undone forth back (length (lower_body d) / 64) (lower_body d) ≡ true
      → lower_body (map_log_data back (map_log_data forth d)) ≡ lower_body d
  map_log_data_back d undone =
      let n = length (lower_body d) / 64 in
      let low = to_lower-lower_body d in
      let (_, size) = map_words_shape forth n (lower_body d) low (omega arith) in
      map_log_data_lem back (map_log_data forth d)
      ∙ ap (λ b. map_words back (length b / 64) b) (map_log_data_lem forth d)
      ∙ ap (λ k. map_words back (k / 64) (map_words forth n (lower_body d))) size
      ∙ map_words_back n (lower_body d) low (omega arith) undone

-- The translation of log data, by any mapper, keeps the number of its digits.
pub length-map_log_data :
    (mapper : AddressMapper) (d : Text)
    → length (lower_body (map_log_data mapper d)) ≡ length (lower_body d)
length-map_log_data mapper d =
    let n = length (lower_body d) / 64 in
    ap length (map_log_data_lem mapper d)
    ∙ (map_words_shape mapper n (lower_body d) (to_lower-lower_body d) (omega arith)).1
