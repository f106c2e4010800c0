-- ===== src/CommandModifier/Tests.antt =====
-- Runs of src/executor/command_modifier.rs, and the theorems at concrete commands.
use fctools.Base.{◌≡◌, refl, [], ◌∷◌}
use fctools.Text.{txt, starts_with}
use fctools.CommandModifier.{
  new_netns, iproute2_path, netns, append, replace, replace_all, apply_command_modifier_chain,
}

default_iproute2 :
    netns (new_netns (txt "test")) (txt "command") ≡ txt "/usr/sbin/ip netns exec test command"
unfolding netns new_netns
default_iproute2 = refl

custom_iproute2 :
    netns (iproute2_path (new_netns (txt "test")) (txt "/custom/path")) (txt "command")
    ≡ txt "/custom/path netns exec test command"
unfolding netns new_netns iproute2_path
custom_iproute2 = refl

two_modifiers :
    apply_command_modifier_chain (txt "command") (
      append (record { appended_command = txt " appended" })
      ∷ replace_all (record { replacements = (txt "app", txt "APP") ∷ [] })
      ∷ [])
    ≡ txt "command APPended"
unfolding apply_command_modifier_chain append replace_all starts_with
two_modifiers = refl

-- The result of two replacements depends on the order in which the map is iterated.
order_matters :
    (replace_all (record { replacements = (txt "a", txt "b") ∷ (txt "b", txt "c") ∷ [] }) (txt "a")
      ≡ txt "c")
    × (replace_all
          (record { replacements = (txt "b", txt "c") ∷ (txt "a", txt "b") ∷ [] })
          (txt "a")
        ≡ txt "b")
unfolding replace_all starts_with
order_matters = (refl, refl)

empty_pattern : replace (txt "ab") (txt "") (txt "x") ≡ txt "xaxbx"
unfolding replace
empty_pattern = refl
