-- ===== src/Arguments/Tables.antt =====
-- `HashMap<String, V>`: lists of pairs with distinct keys, in the order of their iteration.
use fctools.Base.{◌≡◌, refl, Option, none, some, List, [], ◌∷◌, arith, if◌then◌else◌}
use fctools.Text.{Text, text_eq, text_eq_iff}

abbrev pub TextTable : Type 0 → Type 0
TextTable V = List (Text × V)

module _ {V : Type 0} where
  -- `HashMap::get`
  unfoldable pub lookup : Text → TextTable V → Option V
  lookup k [] = none
  lookup k ((j, v) ∷ m) = if text_eq j k then some v else lookup k m

  -- `HashMap::insert`
  unfoldable pub insert : Text → V → TextTable V → TextTable V
  unfolding text_eq
  insert k v [] = (k, v) ∷ []
  insert k v ((j, w) ∷ m) = if text_eq j k then (j, v) ∷ m else (j, w) ∷ insert k v m

  pub lookup-insert :
      (k j : Text) (v : V) (m : TextTable V)
      → lookup j (insert k v m) ≡ (if text_eq k j then some v else lookup j m)
  unfolding lookup insert
  lookup-insert k j v [] = refl
  lookup-insert k j v ((i, w) ∷ m) =
      ground (arith, text_eq_iff k j, text_eq_iff i k, text_eq_iff i j, lookup-insert k j v m)

  -- No key is listed twice.
  abbrev pub NodupKeys : TextTable V → Type 0
  NodupKeys [] = Unit
  NodupKeys ((k, v) ∷ m) = (lookup k m ≡ none) × NodupKeys m

  pub insert-NodupKeys :
      (k : Text) (v : V) (m : TextTable V) → NodupKeys m → NodupKeys (insert k v m)
  unfolding lookup insert
  insert-NodupKeys k v [] h = (refl, tt)
  insert-NodupKeys k v ((j, w) ∷ m) h =
      ground
        (arith, text_eq_iff j k, text_eq_iff k j, insert-NodupKeys k v m h.1, lookup-insert k j v m)
