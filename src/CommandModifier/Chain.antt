-- ===== src/CommandModifier/Chain.antt =====
-- Laws of replacing in src/executor/command_modifier.rs.
use fctools.Base.{◌≡◌, refl, ◌≢◌, false, [], ◌∷◌, arith}
use fctools.Text.{Text, contains}
use fctools.CommandModifier.{replace_from, replace}

replace_from-absent :
    (original new s : Text)
    → original ≢ []
    → contains s original ≡ false
    → replace_from original new 0 s ≡ s
unfolding replace_from contains
replace_from-absent [] new s ne h = absurd (ne refl)
replace_from-absent (o ∷ original) new [] ne h = refl
replace_from-absent (o ∷ original) new (c ∷ s) ne h =
    ground (arith, replace_from-absent (o ∷ original) new s ne)

-- Replacing a text that does not occur changes nothing.
pub replace-absent :
    (s original new : Text)
    → original ≢ []
    → contains s original ≡ false
    → replace s original new ≡ s
unfolding replace
replace-absent s original new ne h = replace_from-absent original new s ne h
