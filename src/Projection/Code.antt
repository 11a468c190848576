-- ===== src/Projection/Code.antt =====
-- rpc-src/immutable-projection.ts: `runtimeCodeBody`, `embeddedAddress`,
-- `buildDescriptorsFromRanges` and `projectDescriptorImmutables`.
use openzeppelin_foundry_upg.Base.{
  ℕ, ◌+◌, ◌-◌, ◌*◌, ◌%◌, Bool, true, false, not, ◌&&◌, Option, List, [], ◌∷◌, ◌++◌, length, take,
  drop, all, is_empty, eqb, leb, ltb, ◌==◌, nat_eq, list_eq, match_option, if◌then◌else◌,
}
use openzeppelin_foundry_upg.Base.Text.{Text, codes}
use openzeppelin_foundry_upg.Base.Patterns.{is_hex, is_canonical_hex, to_lower}
use openzeppelin_foundry_upg.Base.Result.{Result, ok, err, ◌>>=◌, ◌>>◌, require}
use openzeppelin_foundry_upg.AddressMap.State.{
  ImmutableRange, ImmutableRole, self, admin, beacon, ImmutableDescriptor,
}

unfoldable pub is_address_width : ImmutableRange → Bool
is_address_width range = leb 20 range.length

-- `ranges.filter(isAddressWidth)`
unfoldable pub address_ranges : List ImmutableRange → List ImmutableRange
address_ranges [] = []
address_ranges (r ∷ rest) =
    let kept = address_ranges rest in if is_address_width r then r ∷ kept else kept

unfoldable pub has_address_width_range : List ImmutableRange → Bool
has_address_width_range [] = false
has_address_width_range (r ∷ rest) =
    let later = has_address_width_range rest in if is_address_width r then true else later

-- `/^0x(?:[0-9a-fA-F]{2})*$/`
unfoldable pub is_code : Text → Bool
is_code (z ∷ x ∷ body) = eqb z 48 && eqb x 120 && eqb (length body % 2) 0 && all is_hex body
is_code _ = false

unfoldable pub runtime_code_body : Text → Result Text
runtime_code_body code =
    if is_code code then ok (to_lower (drop 2 code)) else err "Runtime code is not canonical hex"

-- `chars.slice(to - 40, to)`: below 0, the first index counts from the end and stops at 0.
unfoldable pub low20 : ℕ → Text → Text
low20 to body =
    if leb 40 to
    then take 40 (drop (to - 40) body)
    else take (to - (length body + to - 40)) (drop (length body + to - 40) body)

abbrev pub range_end : ℕ → ℕ → ℕ
range_end start size = (start + size) * 2

unfoldable pub embedded_address : Text → ImmutableRange → Result Text
embedded_address body range =
    let to = range_end range.start range.length in
    if ltb (length body) to
    then err "Immutable reference is out of range"
    else ok (48 ∷ 120 ∷ low20 to body)

-- One turn of the loop over the ranges: the descriptor that is pushed, if there is one.
unfoldable pub bind_range : Text → Text → Text → ImmutableRange → Result (List ImmutableDescriptor)
bind_range kind own body range = do
  embedded ← embedded_address body range
  if kind == codes "transparent-proxy"
      then ok (
          record {
            role = admin;
            start = range.start;
            length = range.length;
            expected_actual = embedded;
          }
          ∷ [])
      else if kind == codes "beacon-proxy"
      then ok (
          record {
            role = beacon;
            start = range.start;
            length = range.length;
            expected_actual = embedded;
          }
          ∷ [])
      else if embedded == own
      then ok (
          record { role = self; start = range.start; length = range.length; expected_actual = own }
          ∷ [])
      else ok []

unfoldable pub bind_ranges :
    Text → Text → Text → List ImmutableRange → Result (List ImmutableDescriptor)
bind_ranges kind own body [] = ok []
bind_ranges kind own body (r ∷ rest) = do
  now ← bind_range kind own body r
  later ← bind_ranges kind own body rest
  ok (now ++ later)

unfoldable pub build_descriptors_from_ranges :
    Text → Text → Text → List ImmutableRange → Result (List ImmutableDescriptor)
build_descriptors_from_ranges kind own_actual code ranges =
    let wide = address_ranges ranges in
    let own = to_lower own_actual in
    if is_empty wide then ok [] else do
      body ← runtime_code_body code
      require (is_canonical_hex 40 own) "Deployment actual address is not a canonical address"
      bind_ranges kind own body wide

unfoldable pub is_self : ImmutableRole → Bool
is_self self = true
is_self admin = false
is_self beacon = false

-- The loop `chars[low20Start + i] = targetHex[i]`: a negative index is no character of the result.
unfoldable pub put_low20 : ℕ → Text → Text → Text
put_low20 to target_hex body = take (to - 40) body ++ (drop (40 - to) target_hex ++ drop to body)

module _ (own_predicted : Text) (to_predicted : Text → Option Text) where
  -- One turn of the loop over the descriptors.
  unfoldable pub project_descriptor : Text → ImmutableDescriptor → Result Text
  project_descriptor body d =
      let to = range_end d.start d.length in
      do
        require (not (ltb (length body) to)) "Immutable reference is out of range"
        require ((48 ∷ 120 ∷ low20 to body) == to_lower d.expected_actual)
            "Runtime immutable value does not match its captured commitment"
        target ←
            match_option (to_predicted d.expected_actual)
              (err "Runtime immutable value does not resolve to a mapped predicted address")
              (λ t. ok t)
        require (is_canonical_hex 40 (to_lower target)) "Mapped predicted address is malformed"
        require (not (is_self d.role && not (to_lower (drop 2 target) == drop 2 own_predicted)))
            "Self immutable does not resolve to its own predicted address"
        ok (put_low20 to (to_lower (drop 2 target)) body)

  unfoldable pub project_all : Text → List ImmutableDescriptor → Result Text
  project_all body [] = ok body
  project_all body (d ∷ rest) = do later ← project_descriptor body d; project_all later rest

unfoldable pub project_descriptor_immutables :
    Text → List ImmutableDescriptor → Text → (Text → Option Text) → Result Text
project_descriptor_immutables code descriptors predicted to_predicted = do
  body ← runtime_code_body code
  projected ← project_all (to_lower predicted) to_predicted body descriptors
  ok (48 ∷ 120 ∷ projected)
