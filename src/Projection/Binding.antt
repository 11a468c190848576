-- ===== src/Projection/Binding.antt =====
-- The descriptors that `buildDescriptorsFromRanges` binds are commitments to the code that it read.
use openzeppelin_foundry_upg.Base.{
  ◌≤◌, ◌≡◌, refl, sym, true, List, [], ◌∷◌, ◌++◌, length, All, is_empty, nat_eq, list_eq, arith,
  inl, inr, Bool-cases, subst,
}
use openzeppelin_foundry_upg.Base.Text.{Text, text_iff}
use openzeppelin_foundry_upg.Base.Patterns.{to_lower}
use openzeppelin_foundry_upg.Base.Result.{Result, ok, err}
use openzeppelin_foundry_upg.AddressMap.State.{ImmutableRange, ImmutableDescriptor}
use openzeppelin_foundry_upg.Projection.Code.{
  is_address_width, address_ranges, runtime_code_body, low20, range_end, embedded_address,
  bind_range, bind_ranges, build_descriptors_from_ranges, is_self,
}

-- A descriptor that names twenty bytes of the code, what they are, and whose they are when the
-- role is `self`.
pub record IsBound (own body : Text) (d : ImmutableDescriptor) : Type 0 where
  pub inside : range_end d.start d.length ≤ length body
  pub wide : 20 ≤ d.length
  pub reads : d.expected_actual ≡ 48 ∷ 120 ∷ low20 (range_end d.start d.length) body
  pub self_own : is_self d.role ≡ true → d.expected_actual ≡ own

module _ (kind own body : Text) where
  bound_facts :
      (r : ImmutableRange) (d : ImmutableDescriptor) (ds : List ImmutableDescriptor)
      → is_address_width r ≡ true
      → bind_range kind own body r ≡ ok (d ∷ ds)
      → (ds ≡ [])
        × (range_end r.start r.length ≤ length body)
        × (d.start ≡ r.start)
        × (d.length ≡ r.length)
        × (d.expected_actual ≡ 48 ∷ 120 ∷ low20 (range_end r.start r.length) body)
  unfolding bind_range embedded_address is_address_width
  bound_facts r d ds wide h =
      ground (arith, text_iff (48 ∷ 120 ∷ low20 (range_end r.start r.length) body) own)

  self_facts :
      (r : ImmutableRange) (d : ImmutableDescriptor) (ds : List ImmutableDescriptor)
      → bind_range kind own body r ≡ ok (d ∷ ds)
      → is_self d.role ≡ true
      → d.expected_actual ≡ own
  unfolding bind_range embedded_address is_self
  self_facts r d ds h s =
      ground (arith, text_iff (48 ∷ 120 ∷ low20 (range_end r.start r.length) body) own)

  bind_range-IsBound :
      (r : ImmutableRange) (ds : List ImmutableDescriptor)
      → is_address_width r ≡ true
      → bind_range kind own body r ≡ ok ds
      → All (IsBound own body) ds
  bind_range-IsBound r [] wide h = tt
  bind_range-IsBound r (d ∷ ds) wide h =
      let (alone, fits, same_start, same_length, reads) = bound_facts r d ds wide h in
      (
        record {
          inside = ground (arith, fits, same_start, same_length);
          wide = unfold is_address_width in ground (arith, same_length);
          reads = ground (arith, reads, same_start, same_length);
          self_own = self_facts r d ds h;
        },
        subst (All (IsBound own body)) (sym alone) tt,
      )

  All-append :
      (xs ys : List ImmutableDescriptor)
      → All (IsBound own body) xs
      → All (IsBound own body) ys
      → All (IsBound own body) (xs ++ ys)
  All-append [] ys a b = b
  All-append (x ∷ xs) ys a b = (a.0, All-append xs ys a.1 b)

  bind_ranges-IsBound :
      (rs : List ImmutableRange) (ds : List ImmutableDescriptor)
      → bind_ranges kind own body (address_ranges rs) ≡ ok ds
      → All (IsBound own body) ds
  unfolding bind_ranges address_ranges
  bind_ranges-IsBound [] ds h = subst (All (IsBound own body)) (the_nil ds h) tt
    where
      the_nil : (xs : List ImmutableDescriptor) → ok [] ≡ ok xs → [] ≡ xs
      the_nil xs e = ground arith
  bind_ranges-IsBound (r ∷ rs) ds h = elim (Bool-cases (is_address_width r)) [
    | inr narrow ↦ bind_ranges-IsBound rs ds (ground arith)
    | inl wide ↦
        go wide (bind_range kind own body r) refl (bind_ranges kind own body (address_ranges rs))
          refl (bind_ranges-IsBound rs)
  ]
    where
      go :
          is_address_width r ≡ true
          → (p : Result (List ImmutableDescriptor)) → bind_range kind own body r ≡ p
          → (q : Result (List ImmutableDescriptor))
          → bind_ranges kind own body (address_ranges rs) ≡ q
          → ((xs : List ImmutableDescriptor)
              → bind_ranges kind own body (address_ranges rs) ≡ ok xs
              → All (IsBound own body) xs)
          → All (IsBound own body) ds
      go wide (err e) f q g ih = absurd (ground arith)
      go wide (ok now) f (err e) g ih = absurd (ground arith)
      go wide (ok now) f (ok later) g ih =
          let whole : now ++ later ≡ ds = ground arith in
          subst (All (IsBound own body)) whole
            (All-append now later (bind_range-IsBound r now wide f) (ih later g))

-- When `buildDescriptorsFromRanges` returns descriptors of valid code, each of them names at least
-- twenty bytes inside the code, commits to the last twenty of them, and, if its role is `self`, to
-- the deployment's own address.
pub built-IsBound :
    (kind own_actual code body : Text) (ranges : List ImmutableRange)
    (ds : List ImmutableDescriptor)
    → runtime_code_body code ≡ ok body
    → build_descriptors_from_ranges kind own_actual code ranges ≡ ok ds
    → All (IsBound (to_lower own_actual) body) ds
unfolding build_descriptors_from_ranges
built-IsBound kind own_actual code body ranges ds read h =
    elim (Bool-cases (is_empty (address_ranges ranges))) [
      | inl empty ↦ subst (All (IsBound (to_lower own_actual) body)) (the_nil (ground arith)) tt
      | inr some_range ↦
          bind_ranges-IsBound kind (to_lower own_actual) body ranges ds (ground (arith, read))
    ]
  where
    the_nil : [] ≡ ds → [] ≡ ds
    the_nil e = e
