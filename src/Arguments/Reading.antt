-- ===== src/Arguments/Reading.antt =====
-- Reading the command lines of src/executor/arguments.rs back, as the programs that get them do.
use fctools.Base.{
  ◌≡◌, ◌≢◌, refl, sym, ap, ◌∙◌, Bool, false, Option, none, some, List, [], ◌∷◌, ◌++◌, map, All,
  All-append, append_assoc, append-nil, if◌then◌else◌,
}
use fctools.Text.{Text, txt, space, starts_with}
use fctools.Text.Words.{split, join, Free, split-append, split_whole, split-append_sep}
use fctools.Arguments.{
  ArgTable, ArgValue, no_value, some_value, some_borrowed, many, render, join_args,
}
use fctools.Arguments.Order.{join_args_lem}

abbrev is_key : Text → Bool
is_key word = starts_with word (txt "--")

abbrev without_dashes : Text → Text
without_dashes (c ∷ d ∷ key) = key
without_dashes word = word

-- A word with two dashes is a key, and the word after it is its value unless it is a key too.
unfoldable pub read_after : Option Text → List Text → List (Text × Option Text)
unfolding starts_with
read_after none [] = []
read_after (some key) [] = (key, none) ∷ []
read_after none (word ∷ words) =
    if is_key word then read_after (some (without_dashes word)) words else read_after none words
read_after (some key) (word ∷ words) =
    if is_key word
    then (key, none) ∷ read_after (some (without_dashes word)) words
    else (key, some word) ∷ read_after none words

-- The options of a command line, in order.
unfoldable pub read_line : Text → List (Text × Option Text)
unfolding read_after split
read_line line = read_after none (split space line)

-- The options that a table of arguments asks for.
abbrev with_key : Text → List Text → List (Text × Option Text)
with_key key [] = []
with_key key (value ∷ values) = (key, some value) ∷ with_key key values

abbrev options_of_entry : Text × ArgValue → List (Text × Option Text)
options_of_entry (key, no_value) = (key, none) ∷ []
options_of_entry (key, some_value value) = (key, some value) ∷ []
options_of_entry (key, some_borrowed value) = (key, some value) ∷ []
options_of_entry (key, many values) = with_key key values

unfoldable pub options_of : ArgTable → List (Text × Option Text)
options_of [] = []
options_of (entry ∷ args) = options_of_entry entry ++ options_of args

-- A value without a space that cannot be taken for a key.
abbrev pub IsPlainValue : Text → Type 0
IsPlainValue value = Free space value × (is_key value ≡ false)

abbrev pub IsPlainEntry : Text × ArgValue → Type 0
IsPlainEntry (key, no_value) = Free space key
IsPlainEntry (key, some_value value) = Free space key × IsPlainValue value
IsPlainEntry (key, some_borrowed value) = Free space key × IsPlainValue value
IsPlainEntry (key, many values) = Free space key × (values ≢ []) × All IsPlainValue values

-- The words of the options.
abbrev option_words : Text × Option Text → List Text
option_words (key, none) = (txt "--" ++ key) ∷ []
option_words (key, some value) = (txt "--" ++ key) ∷ value ∷ []

words_of : List (Text × Option Text) → List Text
words_of [] = []
words_of (option ∷ options) = option_words option ++ words_of options

words_of-append :
    (xs ys : List (Text × Option Text)) → words_of (xs ++ ys) ≡ words_of xs ++ words_of ys
unfolding words_of
words_of-append [] ys = refl
words_of-append (x ∷ xs) ys =
    ap (λ l. option_words x ++ l) (words_of-append xs ys)
    ∙ sym (append_assoc (option_words x) (words_of xs) (words_of ys))

abbrev IsPlainOption : Text × Option Text → Type 0
IsPlainOption (key, none) = Unit
IsPlainOption (key, some value) = is_key value ≡ false

-- After a key without a value comes a key or nothing.
key_ends :
    (key : Text) (options : List (Text × Option Text))
    → read_after (some key) (words_of options) ≡ (key, none) ∷ read_after none (words_of options)
unfolding read_after words_of
key_ends key [] = refl
key_ends key ((next, none) ∷ options) = refl
key_ends key ((next, some value) ∷ options) = refl

read_after-words :
    (options : List (Text × Option Text))
    → All IsPlainOption options
    → read_after none (words_of options) ≡ options
unfolding read_after words_of
read_after-words [] h = refl
read_after-words ((key, none) ∷ options) (now, later) =
    key_ends key options ∙ ap (λ l. (key, none) ∷ l) (read_after-words options later)
read_after-words ((key, some value) ∷ options) (now, later) =
    rw now (ap (λ l. (key, some value) ∷ l) (read_after-words options later))

flat : List Text → List Text
flat [] = []
flat (text ∷ texts) = split space text ++ flat texts

-- A joined line is split in each of its parts.
split_joined :
    (text : Text) (texts : List Text)
    → split space (join space (text ∷ texts)) ≡ flat (text ∷ texts)
unfolding join flat
split_joined text [] = sym (append-nil (split space text))
split_joined text (next ∷ texts) =
    split-append_sep space text (join space (next ∷ texts))
    ∙ ap (λ l. split space text ++ l) (split_joined next texts)

key-Free : (key : Text) → Free space key → Free space (txt "--" ++ key)
key-Free key h = (λ e. cc, (λ e. cc, h))

split_valued :
    (key value : Text)
    → Free space key
    → Free space value
    → split space (txt "--" ++ (key ++ (txt " " ++ value))) ≡ (txt "--" ++ key) ∷ value ∷ []
split_valued key value h g =
    split-append space (txt "--" ++ key) value (key-Free key h)
    ∙ ap (λ l. (txt "--" ++ key) ∷ l) (split_whole space value g)

flat_values :
    (key : Text) (values : List Text)
    → Free space key
    → All IsPlainValue values
    → flat (map (λ value. txt "--" ++ (key ++ (txt " " ++ value))) values)
      ≡ words_of (with_key key values)
unfolding flat words_of
flat_values key [] h hs = refl
flat_values key (value ∷ values) h (now, later) =
    ap (λ l. l ++ flat (map (λ value. txt "--" ++ (key ++ (txt " " ++ value))) values))
      (split_valued key value h now.0)
    ∙ ap (λ l. (txt "--" ++ key) ∷ value ∷ l) (flat_values key values h later)

split-render :
    (entry : Text × ArgValue)
    → IsPlainEntry entry
    → split space (render entry) ≡ words_of (options_of_entry entry)
unfolding render words_of
split-render (key, no_value) h = split_whole space (txt "--" ++ key) (key-Free key h)
split-render (key, some_value value) (h, (g, _)) = split_valued key value h g
split-render (key, some_borrowed value) (h, (g, _)) = split_valued key value h g
split-render (key, many []) (h, ne, hs) = absurd (ne refl)
split-render (key, many (value ∷ values)) (h, ne, hs) =
    split_joined (txt "--" ++ (key ++ (txt " " ++ value)))
      (map (λ value. txt "--" ++ (key ++ (txt " " ++ value))) values)
    ∙ flat_values key (value ∷ values) h hs

flat_rendered :
    (args : ArgTable) → All IsPlainEntry args → flat (map render args) ≡ words_of (options_of args)
unfolding flat words_of options_of
flat_rendered [] h = refl
flat_rendered (entry ∷ args) (now, later) =
    ap (λ l. l ++ flat (map render args)) (split-render entry now)
    ∙ ap (λ l. words_of (options_of_entry entry) ++ l) (flat_rendered args later)
    ∙ sym (words_of-append (options_of_entry entry) (options_of args))

values-IsPlainOption :
    (key : Text) (values : List Text)
    → All IsPlainValue values
    → All IsPlainOption (with_key key values)
values-IsPlainOption key [] h = tt
values-IsPlainOption key (value ∷ values) (now, later) =
    (now.1, values-IsPlainOption key values later)

entry-IsPlainOption :
    (entry : Text × ArgValue) → IsPlainEntry entry → All IsPlainOption (options_of_entry entry)
entry-IsPlainOption (key, no_value) h = (tt, tt)
entry-IsPlainOption (key, some_value value) (h, (g, plain)) = (plain, tt)
entry-IsPlainOption (key, some_borrowed value) (h, (g, plain)) = (plain, tt)
entry-IsPlainOption (key, many values) (h, ne, hs) = values-IsPlainOption key values hs

options-IsPlainOption :
    (args : ArgTable) → All IsPlainEntry args → All IsPlainOption (options_of args)
unfolding options_of
options-IsPlainOption [] h = tt
options-IsPlainOption (entry ∷ args) (now, later) =
    All-append IsPlainOption (options_of_entry entry) (options_of args)
      (entry-IsPlainOption entry now) (options-IsPlainOption args later)

-- The line that `join_args` prints reads back as the options of the table, in its order, a key with many
-- values as one option for each: when no key or value has a space, no value starts with two dashes, and
-- no list of values is empty.
pub read_line-join_args :
    (args : ArgTable) → All IsPlainEntry args → read_line (join_args args) ≡ options_of args
unfolding read_line
read_line-join_args [] h = unfold join_args options_of in refl
read_line-join_args (entry ∷ args) h =
    ap (λ line. read_after none (split space line)) (join_args_lem (entry ∷ args))
    ∙ ap (read_after none) (split_joined (render entry) (map render args))
    ∙ ap (read_after none) (flat_rendered (entry ∷ args) h)
    ∙ read_after-words (options_of (entry ∷ args)) (options-IsPlainOption (entry ∷ args) h)
