-- ===== src/CommandModifier.antt =====
-- src/executor/command_modifier.rs: transformations of the command line. A `dyn CommandModifier` is
-- its `modify_command`.
pub mod Chain
mod Tests
use fctools.Base.{ℕ, zero, suc, ◌-◌, List, [], ◌∷◌, ◌++◌, if◌then◌else◌, length}
use fctools.Text.{Text, txt, starts_with, is_empty}
use fctools.FilePath.{FilePath}
use fctools.Arguments.{TextTable, insert}

abbrev pub CommandModifier : Type 0
CommandModifier = Text → Text

pub record NetnsCommandModifier : Type 0 where
  pub netns_name : Text
  pub iproute2_path : FilePath

pub record AppendCommandModifier : Type 0 where
  pub appended_command : Text

pub record RewriteCommandModifier : Type 0 where
  pub new_command : Text

-- The replacements in the order in which the map is iterated.
pub record ReplaceCommandModifier : Type 0 where
  pub replacements : TextTable Text

-- `NetnsCommandModifier::new`
unfoldable pub new_netns : Text → NetnsCommandModifier
new_netns netns_name = record { netns_name = netns_name; iproute2_path = txt "/usr/sbin/ip" }

unfoldable pub iproute2_path : NetnsCommandModifier → FilePath → NetnsCommandModifier
iproute2_path m path = record m { iproute2_path = path }

-- `ReplaceCommandModifier::new` and `replace`
unfoldable pub new_replace : ReplaceCommandModifier
new_replace = record { replacements = [] }

unfoldable pub add_replacement : ReplaceCommandModifier → Text → Text → ReplaceCommandModifier
add_replacement m original new = record m { replacements = insert original new m.replacements }

-- The characters of `s` after the first `skip`, with every match of `original` replaced, from the
-- left and without overlap. An empty `original` matches before each character and at the end.
unfoldable pub replace_from : Text → Text → ℕ → Text → Text
replace_from original new skip [] = if is_empty original then new else []
replace_from original new (suc skip) (c ∷ s) = replace_from original new skip s
replace_from original new zero (c ∷ s) =
    let kept = c ∷ replace_from original new zero s in
    let matched = new ++ replace_from original new (length original - 1) s in
    if is_empty original
    then new ++ kept
    else if starts_with (c ∷ s) original
    then matched
    else kept

-- `str::replace`
unfoldable pub replace : Text → Text → Text → Text
unfolding replace_from
replace s original new = replace_from original new 0 s

unfoldable pub netns : NetnsCommandModifier → CommandModifier
netns m command = m.iproute2_path ++ (txt " netns exec " ++ (m.netns_name ++ (txt " " ++ command)))

unfoldable pub append : AppendCommandModifier → CommandModifier
append m command = command ++ m.appended_command

unfoldable pub rewrite : RewriteCommandModifier → CommandModifier
rewrite m command = m.new_command

unfoldable pub replace_each : TextTable Text → Text → Text
unfolding replace
replace_each [] command = command
replace_each ((original, new) ∷ rest) command = replace_each rest (replace command original new)

unfoldable pub replace_all : ReplaceCommandModifier → CommandModifier
unfolding replace_each
replace_all m command = replace_each m.replacements command

unfoldable pub apply_command_modifier_chain : Text → List CommandModifier → Text
apply_command_modifier_chain command [] = command
apply_command_modifier_chain command (modify_command ∷ modifiers) =
    apply_command_modifier_chain (modify_command command) modifiers
