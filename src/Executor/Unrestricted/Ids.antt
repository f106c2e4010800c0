-- ===== src/Executor/Unrestricted/Ids.antt =====
-- The identifiers that `VmmId::new` of src/executor/unrestricted.rs accepts.
use fctools.Base.{
  ℕ, ◌≤◌, ◌≡◌, refl, ◌↔◌, ◌⊎◌, inl, inr, true, false, [], ◌∷◌, All, length, arith, ok, Bool-cases,
}
use fctools.Text.{Text, byte_len, is_ascii_alphanumeric}
use fctools.Executor.Unrestricted.{VmmId, new_id, has_invalid_character}

-- A letter or digit of ASCII, or a dash.
abbrev pub IsIdChar : ℕ → Type 0
IsIdChar c =
    ((b'0' ≤ c) × (c ≤ b'9'))
    ⊎ (((b'A' ≤ c) × (c ≤ b'Z')) ⊎ (((b'a' ≤ c) × (c ≤ b'z')) ⊎ (c ≡ b'-')))

valid_characters :
    (s : Text) → has_invalid_character s ≡ false → All IsIdChar s × (byte_len s ≡ length s)
unfolding has_invalid_character byte_len is_ascii_alphanumeric
valid_characters [] h = (tt, refl)
valid_characters (c ∷ s) h = ground (arith, valid_characters s)

invalid_characters : (s : Text) → has_invalid_character s ≡ true → ¬ All IsIdChar s
unfolding has_invalid_character is_ascii_alphanumeric
invalid_characters [] h all = cc
invalid_characters (c ∷ s) h all = ground (arith, invalid_characters s)

All-valid : (s : Text) → All IsIdChar s → has_invalid_character s ≡ false
All-valid s all = elim (Bool-cases (has_invalid_character s)) [
  | inl bad ↦ absurd (invalid_characters s bad all)
  | inr good ↦ good
]

-- Exactly the texts of 5 to 60 ASCII letters, digits and dashes are accepted, unchanged.
pub new_id_iff :
    (s : Text)
    → (new_id s ≡ ok (record { id = s })) ↔ ((5 ≤ length s) × (length s ≤ 60) × All IsIdChar s)
unfolding new_id
new_id_iff s = (
  λ h. ground (arith, valid_characters s),
  λ h. ground (arith, valid_characters s, All-valid s h.2),
)

-- What is accepted is the text that was given.
pub new_id_same : (s : Text) {v : VmmId} → new_id s ≡ ok v → v.id ≡ s
unfolding new_id
new_id_same s h = ground arith
