-- ===== src/Receipts/Classification.antt =====
-- `internalCreateAttempts` fails closed, and padding hides no creation.
use openzeppelin_foundry_upg.Base.{
  ◌≡◌, refl, sym, ◌∙◌, ap, Bool, true, false, not, some, List, [], ◌∷◌, ◌++◌, nat_eq, list_eq,
  match_option, if◌then◌else◌, is_empty, all, arith, inl, inr, ◌↔◌, Bool-cases, Option-cases,
}
use openzeppelin_foundry_upg.Base.Text.{Text, codes}
use openzeppelin_foundry_upg.Base.Patterns.{to_lower, lower_char}
use openzeppelin_foundry_upg.Base.Tests.{list_beq}
use openzeppelin_foundry_upg.Base.Result.{ok, Result-cases}
use openzeppelin_foundry_upg.Receipts.Creations.{
  InternalTransaction, is_padding, trim_start, trim_end, is_odd_hex, is_create_note,
  is_create_attempt, filter_attempts, internal_create_attempts,
}

-- The note is there, and is no truncated hex text.
unfoldable pub has_sound_note : InternalTransaction → Bool
has_sound_note transaction = match_option transaction.note false (λ note. not (is_odd_hex note))

-- The transactions whose note says that they create.
unfoldable pub creations_of : List InternalTransaction → List InternalTransaction
creations_of [] = []
creations_of (transaction ∷ rest) =
    let later = creations_of rest in
    if match_option transaction.note false is_create_note then transaction ∷ later else later

filter_attempts_sound :
    (transactions found : List InternalTransaction)
    → filter_attempts transactions ≡ ok found
    → (all has_sound_note transactions ≡ true) × (found ≡ creations_of transactions)
unfolding filter_attempts is_create_attempt has_sound_note creations_of
filter_attempts_sound [] found h = (refl, ground arith)
filter_attempts_sound (t ∷ rest) found h = elim (Option-cases t.note) [
  | inl absent ↦ absurd (ground (arith, absent))
  | inr (note, there) ↦ elim (Bool-cases (is_odd_hex note)) [
    | inl odd ↦ absurd (ground (arith, there, odd))
    | inr even ↦ elim (Result-cases (filter_attempts rest)) [
      | inl (e, f) ↦ absurd (ground (arith, there, even, f))
      | inr (later, f) ↦
          let (sound, same) = filter_attempts_sound rest later f in
          (ground (arith, there, even, sound), ground (arith, there, even, f, same))
    ]
  ]
]

filter_attempts_complete :
    (transactions : List InternalTransaction)
    → all has_sound_note transactions ≡ true
    → filter_attempts transactions ≡ ok (creations_of transactions)
unfolding filter_attempts is_create_attempt has_sound_note creations_of
filter_attempts_complete [] h = refl
filter_attempts_complete (t ∷ rest) h = elim (Option-cases t.note) [
  | inl absent ↦ absurd (ground (arith, absent))
  | inr (note, there) ↦ elim (Bool-cases (is_odd_hex note)) [
    | inl odd ↦ absurd (ground (arith, there, odd))
    | inr even ↦ ground (arith, there, even, filter_attempts_complete rest)
  ]
]

-- The creations of a receipt are found exactly when every internal transaction has a note that is
-- no truncated hex text, and then they are the transactions whose note says so, in order.
pub attempts_iff :
    (transactions found : List InternalTransaction)
    → (internal_create_attempts (some transactions) ≡ ok found)
      ↔ ((all has_sound_note transactions ≡ true) × (found ≡ creations_of transactions))
unfolding internal_create_attempts
attempts_iff transactions found = (
  filter_attempts_sound transactions found,
  λ (sound, same). filter_attempts_complete transactions sound ∙ ap ok (sym same),
)

trim_start-padding :
    (before rest : Text)
    → all is_padding before ≡ true
    → trim_start (before ++ rest) ≡ trim_start rest
unfolding trim_start
trim_start-padding [] rest h = refl
trim_start-padding (c ∷ before) rest h = ground (arith, trim_start-padding before rest)

trim_end-padding : (after : Text) → all is_padding after ≡ true → trim_end after ≡ []
unfolding trim_end is_empty
trim_end-padding [] h = refl
trim_end-padding (c ∷ after) h = ground (arith, trim_end-padding after)

-- A note that says `create` between whitespace and NUL characters is a creation.
pub padded_create :
    (before after : Text)
    → all is_padding before ≡ true
    → all is_padding after ≡ true
    → is_create_note (before ++ (codes "create" ++ after)) ≡ true
unfolding is_create_note trim_start trim_end is_padding is_empty to_lower lower_char list_beq
padded_create before after hb ha =
    let started = trim_start-padding before (codes "create" ++ after) hb in
    let ended = trim_end-padding after ha in ground (arith, started, ended)
