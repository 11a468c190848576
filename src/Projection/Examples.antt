-- ===== src/Projection/Examples.antt =====
-- The code of a beacon proxy with one immutable word, bound and projected.
use openzeppelin_foundry_upg.Base.Tests.{list_beq}
use openzeppelin_foundry_upg.Base.{
  is_empty, ◌≡◌, refl, Option, some, [], ◌∷◌, ◌++◌, length, drop, replicate, All, inl, arith,
}
use openzeppelin_foundry_upg.Base.Text.{Text, codes}
use openzeppelin_foundry_upg.Base.Patterns.{is_canonical_hex, is_hex, to_lower}
use openzeppelin_foundry_upg.Base.Result.{ok}
use openzeppelin_foundry_upg.AddressMap.State.{ImmutableRange, ImmutableDescriptor, beacon}
use openzeppelin_foundry_upg.Projection.Code.{
  address_ranges, bind_range, bind_ranges, embedded_address, is_address_width, is_code, is_self,
  low20, project_all, project_descriptor, put_low20, runtime_code_body,
  build_descriptors_from_ranges, project_descriptor_immutables,
}
use openzeppelin_foundry_upg.Projection.Windows.{
  char_at, length-project_descriptor_immutables, projected_elsewhere,
}
use openzeppelin_foundry_upg.Projection.Binding.{IsBound, built-IsBound}

-- One byte, then a word that holds an address.
abbrev body : Text
body = 51 ∷ 51 ∷ replicate 24 48 ++ replicate 40 97

abbrev code : Text
code = 48 ∷ 120 ∷ body

abbrev actual : Text
actual = 48 ∷ 120 ∷ replicate 40 97

abbrev predicted : Text
predicted = 48 ∷ 120 ∷ replicate 40 98

abbrev word : ImmutableRange
word = record { start = 1; length = 32 }

abbrev bound : ImmutableDescriptor
bound = record { role = beacon; start = 1; length = 32; expected_actual = actual }

abbrev projected : Text
projected = 48 ∷ 120 ∷ 51 ∷ 51 ∷ replicate 24 48 ++ replicate 40 98

abbrev to_predicted : Text → Option Text
to_predicted a = some predicted

read_body : runtime_code_body code ≡ ok body
unfolding runtime_code_body is_code is_hex to_lower
read_body = refl

build_bound :
    build_descriptors_from_ranges (codes "beacon-proxy") actual code (word ∷ []) ≡ ok (bound ∷ [])
unfolding build_descriptors_from_ranges is_empty address_ranges is_address_width runtime_code_body
    is_code is_hex is_canonical_hex to_lower bind_ranges bind_range embedded_address list_beq low20
build_bound = refl

project_bound :
    project_descriptor_immutables code (bound ∷ []) predicted to_predicted ≡ ok projected
unfolding project_descriptor_immutables runtime_code_body is_code is_hex project_all
    project_descriptor to_lower list_beq low20 is_canonical_hex is_self put_low20
project_bound = refl

built-IsBound_example : All (IsBound (to_lower actual) body) (bound ∷ [])
built-IsBound_example =
    built-IsBound (codes "beacon-proxy") actual code body (word ∷ []) (bound ∷ []) read_body
      build_bound

length-project_descriptor_immutables_example : length projected ≡ length code
length-project_descriptor_immutables_example =
    length-project_descriptor_immutables code projected predicted to_predicted (bound ∷ [])
      project_bound

projected_elsewhere_example : char_at 3 projected ≡ char_at 1 (to_lower (drop 2 code))
projected_elsewhere_example =
    projected_elsewhere code projected predicted to_predicted (bound ∷ []) project_bound 1
      (inl (omega arith), tt)
