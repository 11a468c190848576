-- ===== src/Receipts/Price.antt =====
-- The effective gas price covers the fee, and by less than one unit for each unit of energy.
use openzeppelin_foundry_upg.Base.{
  ℕ, zero, suc, ◌+◌, ◌-◌, ◌*◌, ◌/◌, ◌%◌, ◌≤◌, ◌<◌, ◌≡◌, ap, ◌∙◌, arith, ◌⊎◌, inl, inr,
}
use native.Mathlib.Nat.{div-add-mod, mod-lt, zero-lt-suc}
use openzeppelin_foundry_upg.Receipts.Numbers.{price_numerator, effective_gas_price}

-- Division that rounds up.
ceiling :
    (n e : ℕ) (quotient : ℕ)
    → quotient ≡ (n + suc e - 1) / suc e
    → (n ≤ suc e * quotient) × (suc e * quotient < n + suc e)
ceiling n e quotient h =
    let total = n + suc e - 1 in
    let whole : suc e * quotient + total % suc e ≡ total =
      ap (λ q. suc e * q + total % suc e) h ∙ div-add-mod total (suc e) in
    let rest = mod-lt total (zero-lt-suc e) in
    (omega (arith, whole, rest), omega (arith, whole, rest))

price_numerator-cost :
    (energy_fee fee cost : ℕ)
    → ((0 < energy_fee) × (cost ≡ energy_fee)) ⊎ ((energy_fee ≡ 0) × (cost ≡ fee))
    → price_numerator energy_fee fee ≡ cost
unfolding price_numerator
price_numerator-cost energy_fee fee cost costs = elim costs [
  | inl (some_fee, same) ↦ ground (arith, some_fee, same)
  | inr (no_fee, same) ↦ ground (arith, no_fee, same)
]

-- For energy that was used, the effective price times the energy is at least what the energy costs,
-- and exceeds it by less than the energy. The energy costs the energy fee when that is not zero,
-- and the whole fee otherwise.
pub price_covers :
    (energy_usage energy_fee fee cost : ℕ)
    → 0 < energy_usage
    → ((0 < energy_fee) × (cost ≡ energy_fee)) ⊎ ((energy_fee ≡ 0) × (cost ≡ fee))
    → (cost ≤ energy_usage * effective_gas_price energy_usage energy_fee fee)
      × (energy_usage * effective_gas_price energy_usage energy_fee fee < cost + energy_usage)
unfolding effective_gas_price
price_covers zero energy_fee fee cost used costs = absurd (omega (arith, used))
price_covers (suc e) energy_fee fee cost used costs =
    let paid = price_numerator-cost energy_fee fee cost costs in
    let price : effective_gas_price (suc e) energy_fee fee ≡ (cost + suc e - 1) / suc e =
      ground (arith, paid) in
    ceiling cost e (effective_gas_price (suc e) energy_fee fee) price
