-- ===== src/FilePath/Table.antt =====
-- `HashMap<PathBuf, PathBuf>`: keys are compared as paths.
use fctools.Base.{◌≡◌, refl, ◌↔◌, true, Option, none, some, List, [], ◌∷◌, arith, if◌then◌else◌}
use fctools.Text.{text_eq_iff}
use fctools.FilePath.{
  FilePath, Component, root_dir, cur_dir, parent_dir, normal, component_eq, components_eq,
  components, path_eq,
}

abbrev pub PathTable : Type 0
PathTable = List (FilePath × FilePath)

-- `HashMap::get`
unfoldable pub lookup : FilePath → PathTable → Option FilePath
lookup k [] = none
lookup k ((j, v) ∷ m) = if path_eq j k then some v else lookup k m

-- `HashMap::insert`: the stored key stays.
unfoldable pub insert : FilePath → FilePath → PathTable → PathTable
insert k v [] = (k, v) ∷ []
insert k v ((j, w) ∷ m) = if path_eq j k then (j, v) ∷ m else (j, w) ∷ insert k v m

unfoldable pub erase : FilePath → PathTable → PathTable
erase k [] = []
erase k ((j, v) ∷ m) = if path_eq j k then erase k m else (j, v) ∷ erase k m

-- `HashMap::remove` returns the value that it takes out.
unfoldable pub remove : FilePath → PathTable → Option FilePath × PathTable
unfolding lookup erase
remove k m = (lookup k m, erase k m)

component_eq_iff : (c d : Component) → (component_eq c d ≡ true) ↔ (c ≡ d)
unfolding component_eq
component_eq_iff root_dir root_dir = (λ h. refl, λ h. refl)
component_eq_iff cur_dir cur_dir = (λ h. refl, λ h. refl)
component_eq_iff parent_dir parent_dir = (λ h. refl, λ h. refl)
component_eq_iff (normal s) (normal t) = ground (arith, text_eq_iff s t)
component_eq_iff _ _ = (λ h. cc, λ h. cc)

components_eq_iff : (cs ds : List Component) → (components_eq cs ds ≡ true) ↔ (cs ≡ ds)
unfolding components_eq
components_eq_iff [] [] = (λ h. refl, λ h. refl)
components_eq_iff (c ∷ cs) (d ∷ ds) = ground (arith, component_eq_iff c d, components_eq_iff cs ds)
components_eq_iff [] (d ∷ ds) = (λ h. cc, λ h. cc)
components_eq_iff (c ∷ cs) [] = (λ h. cc, λ h. cc)

-- Paths are equal exactly when their components are.
pub path_eq_iff : (p q : FilePath) → (path_eq p q ≡ true) ↔ (components p ≡ components q)
unfolding path_eq
path_eq_iff p q = components_eq_iff (components p) (components q)

pub path_eq_refl : (p : FilePath) → path_eq p p ≡ true
path_eq_refl p = (path_eq_iff p p).1 refl

pub lookup-insert :
    (k j v : FilePath) (m : PathTable)
    → lookup j (insert k v m) ≡ (if path_eq k j then some v else lookup j m)
unfolding lookup insert
lookup-insert k j v [] = refl
lookup-insert k j v ((i, w) ∷ m) =
    ground (arith, path_eq_iff k j, path_eq_iff i k, path_eq_iff i j, lookup-insert k j v m)

pub lookup-erase :
    (k j : FilePath) (m : PathTable)
    → lookup j (erase k m) ≡ (if path_eq k j then none else lookup j m)
unfolding lookup erase
lookup-erase k j [] = ground arith
lookup-erase k j ((i, w) ∷ m) =
    ground (arith, path_eq_iff k j, path_eq_iff i k, path_eq_iff i j, lookup-erase k j m)
