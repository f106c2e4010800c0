-- ===== src/Arguments/Tests.antt =====
-- Runs of src/executor/arguments.rs, and the theorems at concrete arguments.
use mathlib.Core.List.{Perm}
use mathlib.Core.List.Perm
use fctools.Base.{
  All, Bool, true, not, ◌&&◌, ◌==◌, Bool-cases, inl, inr, arith, [], ◌∷◌, ◌≡◌, refl, none,
}
use fctools.Text.{Text, txt, space}
use fctools.Text.Words.{join, Free}
use fctools.Arguments.{
  ConfigurationFileOverride, no_override, disable, enable, VmmArguments, JailerArguments, enabled,
  disabled, debug, ArgTable, vmm_args, jailer_args, join_vmm, join_jailer, render, join_args,
  lookup, some_value, NodupKeys,
}
use fctools.Arguments.Build.{new_vmm, new_jailer, log_level, config_path, cgroup}
use fctools.Arguments.Lookup.{vmm_args_lem}
use fctools.Arguments.Reading.{IsPlainEntry, options_of, read_line, read_line-join_args}

abbrev same_order : ArgTable → ArgTable
same_order args = args

abbrev vmm : VmmArguments
vmm = config_path (log_level (new_vmm (enabled (txt "/tmp/s"))) debug) (txt "/c.json")

abbrev jailer : JailerArguments
jailer = cgroup (new_jailer 1 2 (txt "jail")) (txt "key") (txt "value")

vmm_line :
    join_vmm same_order vmm no_override
    ≡ txt "--api-sock /tmp/s --config-file /c.json --level Debug"
unfolding join_vmm config_path log_level new_vmm fctools.Arguments.insert
vmm_line = refl

vmm_line_disabled : join_vmm same_order vmm disable ≡ txt "--api-sock /tmp/s --level Debug"
unfolding join_vmm config_path log_level new_vmm fctools.Arguments.insert
vmm_line_disabled = refl

jailer_line :
    join_jailer same_order jailer (txt "/fc")
    ≡ txt "--exec-file /fc --uid 1 --gid 2 --id jail --cgroup key=value"
unfolding join_jailer cgroup new_jailer fctools.Arguments.insert fctools.Arguments.Printing.decimal
    join
jailer_line = refl

same_order_fair : (args : ArgTable) → Perm (same_order args) args
same_order_fair args = Perm.refl args

vmm_args_lem_example : lookup (txt "config-file") (vmm_args vmm disable) ≡ none
vmm_args_lem_example = (vmm_args_lem vmm disable).2

-- The options of a jailer, among them a key with two values.
abbrev limited : ArgTable
limited = jailer_args (cgroup jailer (txt "other") (txt "1")) (txt "/fc")

is_free : Text → Bool
is_free [] = true
is_free (c ∷ s) = not (c == space) && is_free s

is_free-Free : (s : Text) → is_free s ≡ true → Free space s
unfolding is_free
is_free-Free [] e = tt
is_free-Free (c ∷ s) e = elim (Bool-cases (c == space)) [
  | inl same ↦ absurd (ground (arith, same))
  | inr other ↦ (ground arith, is_free-Free s (ground (arith, other)))
]

limited-IsPlainEntry : All IsPlainEntry limited
unfolding is_free jailer_args cgroup new_jailer fctools.Arguments.insert
    fctools.Arguments.Printing.decimal fctools.Text.starts_with
limited-IsPlainEntry =
    let free = is_free-Free in
    (
      (free (txt "exec-file") refl, (free (txt "/fc") refl, refl)),
      (
        (free (txt "uid") refl, (free (txt "1") refl, refl)),
        (
          (free (txt "gid") refl, (free (txt "2") refl, refl)),
          (
            (free (txt "id") refl, (free (txt "jail") refl, refl)),
            (
              (
                free (txt "cgroup") refl,
                λ e. cc,
                ((free (txt "key=value") refl, refl), ((free (txt "other=1") refl, refl), tt)),
              ),
              tt,
            ),
          ),
        ),
      ),
    )

read_line-join_args_example : read_line (join_args limited) ≡ options_of limited
read_line-join_args_example = read_line-join_args limited limited-IsPlainEntry
