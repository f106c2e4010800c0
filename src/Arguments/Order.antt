-- ===== src/Arguments/Order.antt =====
-- `join_args` of src/executor/arguments.rs against a plain description, for every order of the map.
use mathlib.Core.List.{Perm}
use mathlib.Core.List.Perm
use fctools.Base.{◌≡◌, refl, sym, ap, ◌∙◌, List, [], ◌∷◌, ◌++◌, map, append_assoc, append-nil, ℕ}
use fctools.Text.{Text, space}
use fctools.Text.Words.{join}
use fctools.FilePath.{FilePath}
use fctools.Arguments.{
  VmmArguments, ConfigurationFileOverride, JailerArguments, ArgTable, render, pop, push_args,
  join_args, vmm_args, jailer_args, join_vmm, join_jailer,
}

-- The texts, each with a space behind it.
spaced : List Text → Text
spaced [] = []
spaced (t ∷ ts) = t ++ (space ∷ spaced ts)

push_args_lem :
    (output : Text) (args : ArgTable) → push_args output args ≡ output ++ spaced (map render args)
unfolding push_args spaced
push_args_lem output [] = sym (append-nil output)
push_args_lem output (entry ∷ args) =
    push_args_lem ((output ++ render entry) ++ (space ∷ [])) args
    ∙ append_assoc (output ++ render entry) _ _
    ∙ append_assoc output _ _

pop-append : (s : Text) (c : ℕ) (t : Text) → pop (s ++ (c ∷ t)) ≡ s ++ pop (c ∷ t)
unfolding pop
pop-append [] c t = refl
pop-append (a ∷ []) c t = refl
pop-append (a ∷ b ∷ s) c t = ap (λ l. a ∷ l) (pop-append (b ∷ s) c t)

pop-spaced : (t : Text) (ts : List Text) → pop (spaced (t ∷ ts)) ≡ join space (t ∷ ts)
unfolding spaced pop join
pop-spaced t [] = pop-append t space [] ∙ append-nil t
pop-spaced t (u ∷ ts) =
    pop-append t space (u ++ (space ∷ spaced ts))
    ∙ ap (λ l. t ++ l)
        (pop-append (space ∷ u) space (spaced ts)
          ∙ ap (λ l. space ∷ l) (sym (pop-append u space (spaced ts)) ∙ pop-spaced u ts))

-- The loop that pushes each entry with a space and pops the last space joins the entries by single
-- spaces.
pub join_args_lem : (args : ArgTable) → join_args args ≡ join space (map render args)
unfolding join_args join
join_args_lem [] = refl
join_args_lem (entry ∷ args) =
    ap pop (push_args_lem [] (entry ∷ args)) ∙ pop-spaced (render entry) (map render args)

module _ (order : ArgTable → ArgTable) (fair : (args : ArgTable) → Perm (order args) args) where
  -- In whatever order the map is iterated, the line that is passed to `firecracker` is its options,
  -- each once, joined by single spaces.
  pub join_vmm_options :
      (a : VmmArguments) (config_override : ConfigurationFileOverride)
      → (options : List Text) × (join_vmm order a config_override ≡ join space options)
        × Perm options (map render (vmm_args a config_override))
  unfolding join_vmm
  join_vmm_options a config_override = (
    map render (order (vmm_args a config_override)),
    join_args_lem (order (vmm_args a config_override)),
    Perm.map render (fair (vmm_args a config_override)),
  )

  -- The same for `jailer`.
  pub join_jailer_options :
      (a : JailerArguments) (firecracker_path : FilePath)
      → (options : List Text) × (join_jailer order a firecracker_path ≡ join space options)
        × Perm options (map render (jailer_args a firecracker_path))
  unfolding join_jailer
  join_jailer_options a firecracker_path = (
    map render (order (jailer_args a firecracker_path)),
    join_args_lem (order (jailer_args a firecracker_path)),
    Perm.map render (fair (jailer_args a firecracker_path)),
  )
