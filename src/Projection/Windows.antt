-- ===== src/Projection/Windows.antt =====
-- What the projection of runtime code changes: the length stays, and so does each character that
-- no descriptor names.
use openzeppelin_foundry_upg.Base.{
  ℕ, zero, suc, ◌-◌, ◌≤◌, ◌<◌, ◌≡◌, refl, sym, ap, ◌∙◌, true, Option, none, some, List, [], ◌∷◌,
  ◌++◌, length, take, drop, All, nat_eq, list_eq, arith, length-append, length-drop, length-take,
  ◌⊎◌, inl, inr,
}
use openzeppelin_foundry_upg.Base.Text.{Text}
use openzeppelin_foundry_upg.Base.Patterns.{is_canonical_hex, to_lower}
use openzeppelin_foundry_upg.Base.Lowercase.{length-to_lower}
use openzeppelin_foundry_upg.Base.Result.{Result, ok, err}
use openzeppelin_foundry_upg.AddressMap.State.{ImmutableDescriptor}
use openzeppelin_foundry_upg.Projection.Code.{
  is_code, runtime_code_body, range_end, put_low20, project_descriptor, project_all,
  project_descriptor_immutables,
}

-- `text[i]`
unfoldable pub char_at : ℕ → Text → Option ℕ
char_at i [] = none
char_at zero (c ∷ t) = some c
char_at (suc i) (c ∷ t) = char_at i t

char_at-take : (i n : ℕ) (t : Text) → i < n → char_at i (take n t) ≡ char_at i t
unfolding char_at
char_at-take i zero t h = absurd (omega arith)
char_at-take i (suc n) [] h = refl
char_at-take zero (suc n) (c ∷ t) h = refl
char_at-take (suc i) (suc n) (c ∷ t) h = char_at-take i n t (omega arith)

char_at-append_left : (i : ℕ) (s t : Text) → i < length s → char_at i (s ++ t) ≡ char_at i s
unfolding char_at
char_at-append_left i [] t h = absurd (omega arith)
char_at-append_left zero (c ∷ s) t h = refl
char_at-append_left (suc i) (c ∷ s) t h = char_at-append_left i s t (omega arith)

char_at-append_right :
    (i : ℕ) (s t : Text) → length s ≤ i → char_at i (s ++ t) ≡ char_at (i - length s) t
unfolding char_at
char_at-append_right i [] t h = ap (λ k. char_at k t) (omega arith)
char_at-append_right zero (c ∷ s) t h = absurd (omega arith)
char_at-append_right (suc i) (c ∷ s) t h =
    char_at-append_right i s t (omega arith) ∙ ap (λ k. char_at k t) (omega arith)

char_at-drop : (i n : ℕ) (t : Text) → n ≤ i → char_at (i - n) (drop n t) ≡ char_at i t
unfolding char_at
char_at-drop i zero t h = ap (λ k. char_at k t) (omega arith)
char_at-drop i (suc n) [] h = refl
char_at-drop zero (suc n) (c ∷ t) h = absurd (omega arith)
char_at-drop (suc i) (suc n) (c ∷ t) h =
    ap (λ k. char_at k (drop n t)) (omega arith) ∙ char_at-drop i n t (omega arith)

-- No character of the descriptor's address stands at `i`.
abbrev pub Outside : ℕ → ImmutableDescriptor → Type 0
Outside i d = (i < range_end d.start d.length - 40) ⊎ (range_end d.start d.length ≤ i)

length-put_low20 :
    (to : ℕ) (target body : Text)
    → length target ≡ 40
    → to ≤ length body
    → length (put_low20 to target body) ≡ length body
unfolding put_low20
length-put_low20 to target body h fits =
    let front = take (to - 40) body in
    let middle = drop (40 - to) target in
    omega (
      arith,
      length-append front (middle ++ drop to body),
      length-append middle (drop to body),
      length-take (to - 40) body,
      length-drop (40 - to) target,
      length-drop to body,
      h,
    )

char_at-put_low20 :
    (i to : ℕ) (target body : Text)
    → length target ≡ 40
    → to ≤ length body
    → (i < to - 40) ⊎ (to ≤ i)
    → char_at i (put_low20 to target body) ≡ char_at i body
unfolding put_low20
char_at-put_low20 i to target body h fits (inl before) =
    let front = take (to - 40) body in
    char_at-append_left i front (drop (40 - to) target ++ drop to body)
      (omega (arith, length-take (to - 40) body))
    ∙ char_at-take i (to - 40) body before
char_at-put_low20 i to target body h fits (inr after) =
    let front = take (to - 40) body in
    let middle = drop (40 - to) target in
    let m : length front ≡ to - 40 = omega (arith, length-take (to - 40) body) in
    let k : length middle ≡ 40 - (40 - to) = omega (arith, length-drop (40 - to) target, h) in
    char_at-append_right i front (middle ++ drop to body) (omega (arith, m))
    ∙ char_at-append_right (i - length front) middle (drop to body) (omega (arith, m, k))
    ∙ ap (λ j. char_at j (drop to body)) (omega (arith, m, k))
    ∙ char_at-drop i to body after

canonical_digits :
    (t : Text) → is_canonical_hex 40 (to_lower t) ≡ true → length (to_lower (drop 2 t)) ≡ 40
unfolding is_canonical_hex to_lower
canonical_digits [] h = absurd (ground arith)
canonical_digits (a ∷ []) h = absurd (ground arith)
canonical_digits (a ∷ b ∷ t) h = ground (arith, length-to_lower t)

module _ (own_predicted : Text) (to_predicted : Text → Option Text) where
  -- One descriptor's turn writes the digits of an address at its place.
  project_descriptor-writes :
      (body later : Text) (d : ImmutableDescriptor)
      → project_descriptor own_predicted to_predicted body d ≡ ok later
      → (target : Text) × (length target ≡ 40)
        × (range_end d.start d.length ≤ length body)
        × (later ≡ put_low20 (range_end d.start d.length) target body)
  unfolding project_descriptor
  project_descriptor-writes body later d h = go (to_predicted d.expected_actual) refl
    where
      go :
          (o : Option Text)
          → to_predicted d.expected_actual ≡ o
          → (target : Text) × (length target ≡ 40)
            × (range_end d.start d.length ≤ length body)
            × (later ≡ put_low20 (range_end d.start d.length) target body)
      go none e = absurd (ground arith)
      go (some t) e =
          (to_lower (drop 2 t), canonical_digits t (ground arith), ground arith, ground arith)

  project_all-shape :
      (ds : List ImmutableDescriptor) (body out : Text)
      → project_all own_predicted to_predicted body ds ≡ ok out
      → length out ≡ length body
  unfolding project_all
  project_all-shape [] body out h = ground arith
  project_all-shape (d ∷ ds) body out h =
      go (project_descriptor own_predicted to_predicted body d) refl
        (λ later. project_all-shape ds later out)
    where
      go :
          (r : Result Text)
          → project_descriptor own_predicted to_predicted body d ≡ r
          → ((later : Text)
              → project_all own_predicted to_predicted later ds ≡ ok out
              → length out ≡ length later)
          → length out ≡ length body
      go (err e) f ih = absurd (ground arith)
      go (ok later) f ih =
          let (target, size, fits, same) = project_descriptor-writes body later d f in
          ih later (ground arith)
          ∙ ap length same
          ∙ length-put_low20 (range_end d.start d.length) target body size fits

  project_all-elsewhere :
      (i : ℕ) (ds : List ImmutableDescriptor) (body out : Text)
      → All (Outside i) ds
      → project_all own_predicted to_predicted body ds ≡ ok out
      → char_at i out ≡ char_at i body
  unfolding project_all
  project_all-elsewhere i [] body out away h = ground arith
  project_all-elsewhere i (d ∷ ds) body out away h =
      go (project_descriptor own_predicted to_predicted body d) refl
        (λ later. project_all-elsewhere i ds later out away.1)
    where
      go :
          (r : Result Text)
          → project_descriptor own_predicted to_predicted body d ≡ r
          → ((later : Text)
              → project_all own_predicted to_predicted later ds ≡ ok out
              → char_at i out ≡ char_at i later)
          → char_at i out ≡ char_at i body
      go (err e) f ih = absurd (ground arith)
      go (ok later) f ih =
          let (target, size, fits, same) = project_descriptor-writes body later d f in
          ih later (ground arith)
          ∙ ap (char_at i) same
          ∙ char_at-put_low20 i (range_end d.start d.length) target body size fits away.0

code_length :
    (code body : Text) → runtime_code_body code ≡ ok body → length code ≡ suc (suc (length body))
unfolding runtime_code_body is_code
code_length [] body h = absurd (ground arith)
code_length (z ∷ []) body h = absurd (ground arith)
code_length (z ∷ x ∷ t) body h = ground (arith, length-to_lower t)

module _ (code out predicted : Text) (to_predicted : Text → Option Text)
    (ds : List ImmutableDescriptor)
    (h : project_descriptor_immutables code ds predicted to_predicted ≡ ok out) where
  projected_body :
      (body projected : Text) × (runtime_code_body code ≡ ok body)
      × (project_all (to_lower predicted) to_predicted body ds ≡ ok projected)
      × (out ≡ 48 ∷ 120 ∷ projected)
  unfolding project_descriptor_immutables
  projected_body = go (runtime_code_body code) refl
    where
      Parts : Type 0
      Parts =
          (body projected : Text) × (runtime_code_body code ≡ ok body)
          × (project_all (to_lower predicted) to_predicted body ds ≡ ok projected)
          × (out ≡ 48 ∷ 120 ∷ projected)

      go : (r : Result Text) → runtime_code_body code ≡ r → Parts
      go (err e) f = absurd (ground arith)
      go (ok body) f = inside (project_all (to_lower predicted) to_predicted body ds) refl
        where
          inside :
              (s : Result Text) → project_all (to_lower predicted) to_predicted body ds ≡ s → Parts
          inside (err e) g = absurd (ground (arith, f))
          inside (ok projected) g = (body, projected, f, g, ground (arith, f, g))

  -- When `projectDescriptorImmutables` returns code, it is as long as the code that it was given.
  pub length-project_descriptor_immutables : length out ≡ length code
  length-project_descriptor_immutables =
      let (body, projected, f, g, same) = projected_body in
      let kept = project_all-shape (to_lower predicted) to_predicted ds body projected g in
      ap length same ∙ ap (λ n. suc (suc n)) kept ∙ sym (code_length code body f)

  -- When `projectDescriptorImmutables` returns code, each of its digits that is outside the address
  -- of every descriptor is that of the code that it was given, in lower case.
  pub projected_elsewhere :
      (i : ℕ) → All (Outside i) ds → char_at (suc (suc i)) out ≡ char_at i (to_lower (drop 2 code))
  unfolding char_at
  projected_elsewhere i away =
      let (body, projected, f, g, same) = projected_body in
      let digits : body ≡ to_lower (drop 2 code) = unfold runtime_code_body in ground (arith, f) in
      ap (char_at (suc (suc i))) same
      ∙ project_all-elsewhere (to_lower predicted) to_predicted i ds body projected away g
      ∙ ap (char_at i) digits
