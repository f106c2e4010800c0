-- ===== src/Fcnet/Words.antt =====
-- The words that the command line of src/ext/fcnet.rs is made of.
use fctools.Base.{
  ◌≡◌, ◌≢◌, refl, sym, ap, ◌∙◌, Option, none, some, List, [], ◌∷◌, ◌++◌, append_assoc, append-nil,
}
use fctools.Text.{Text, txt}
use fctools.Fcnet.{
  Addresses, FcnetConfigurationType, simple_type, netns_type, FcnetConfiguration, push_arg,
  push_option, push_type, shown, arguments,
}

-- The words, each after a space.
abbrev pub spaced : List Text → Text
spaced [] = []
spaced (word ∷ words) = (txt " " ++ word) ++ spaced words

spaced-append : (us vs : List Text) → spaced (us ++ vs) ≡ spaced us ++ spaced vs
spaced-append [] vs = refl
spaced-append (u ∷ us) vs =
    ap (λ t. (txt " " ++ u) ++ t) (spaced-append us vs)
    ∙ sym (append_assoc (txt " " ++ u) (spaced us) (spaced vs))

-- The options that are present, each as its name and its value.
abbrev pub option_words : List (Text × Option Text) → List Text
option_words [] = []
option_words ((name, none) ∷ options) = option_words options
option_words ((name, some value) ∷ options) = (txt "--" ++ name) ∷ value ∷ option_words options

abbrev pub NoEmptyValue : List (Text × Option Text) → Type 0
NoEmptyValue [] = Unit
NoEmptyValue ((name, none) ∷ options) = NoEmptyValue options
NoEmptyValue ((name, some value) ∷ options) = (value ≢ []) × NoEmptyValue options

push_options : List (Text × Option Text) → Text → Text
push_options [] acc = acc
push_options ((name, value) ∷ options) acc = push_options options (push_option name value acc)

push_arg-value :
    (name value acc : Text)
    → value ≢ []
    → push_arg name value acc ≡ acc ++ spaced ((txt "--" ++ name) ∷ value ∷ [])
unfolding push_arg
push_arg-value name [] acc h = absurd (h refl)
push_arg-value name (c ∷ value) acc h = rw (append-nil value) refl

push_options-words :
    (options : List (Text × Option Text)) (acc : Text)
    → NoEmptyValue options
    → push_options options acc ≡ acc ++ spaced (option_words options)
unfolding push_options push_option
push_options-words [] acc h = sym (append-nil acc)
push_options-words ((name, none) ∷ options) acc h = push_options-words options acc h
push_options-words ((name, some value) ∷ options) acc (now, later) =
    push_options-words options (push_arg name value acc) later
    ∙ ap (λ t. t ++ spaced (option_words options)) (push_arg-value name value acc now)
    ∙ append_assoc acc (spaced ((txt "--" ++ name) ∷ value ∷ [])) (spaced (option_words options))
    ∙ ap (λ t. acc ++ t)
        (sym (spaced-append ((txt "--" ++ name) ∷ value ∷ []) (option_words options)))

module _ (I : Addresses) where
  abbrev pub general_options : FcnetConfiguration I → List (Text × Option Text)
  general_options c =
      (txt "iptables-path", c.iptables_path)
      ∷ (txt "iface", c.iface_name)
      ∷ (txt "tap", c.tap_name)
      ∷ (txt "tap-ip", shown I.inet_to_string c.tap_ip)
      ∷ []

  abbrev pub type_options : FcnetConfigurationType I → List (Text × Option Text)
  type_options simple_type = []
  type_options (netns_type o) =
      (txt "netns", o.netns_name)
      ∷ (txt "veth1", o.veth1_name)
      ∷ (txt "veth2", o.veth2_name)
      ∷ (txt "veth1-ip", shown I.inet_to_string o.veth1_ip)
      ∷ (txt "veth2-ip", shown I.inet_to_string o.veth2_ip)
      ∷ (txt "guest-ip", shown I.addr_to_string o.guest_ip)
      ∷ (txt "forwarded-guest-ip", shown I.addr_to_string o.forwarded_guest_ip)
      ∷ []

  abbrev pub subcommand : FcnetConfigurationType I → Text
  subcommand simple_type = txt "simple"
  subcommand (netns_type o) = txt "netns"

  abbrev pub HasNoEmptyValue : FcnetConfiguration I → Type 0
  HasNoEmptyValue c =
      NoEmptyValue (general_options c) × NoEmptyValue (type_options c.configuration_type)

  -- The operation, the general options, the subcommand and its options.
  abbrev pub words : FcnetConfiguration I → List Text
  words c =
      option_words (general_options c)
      ++ (subcommand c.configuration_type ∷ option_words (type_options c.configuration_type))

  bare :
      (name acc : Text) (options : List (Text × Option Text))
      → NoEmptyValue options
      → push_options options (push_arg name [] acc) ≡ acc ++ spaced (name ∷ option_words options)
  unfolding push_arg
  bare name acc options h =
      push_options-words options ((acc ++ txt " ") ++ name) h
      ∙ ap (λ t. t ++ spaced (option_words options)) (append_assoc acc (txt " ") name)
      ∙ append_assoc acc (txt " " ++ name) (spaced (option_words options))

  pushed :
      (t : FcnetConfigurationType I) (general : List (Text × Option Text)) (operation : Text)
      → NoEmptyValue general
      → NoEmptyValue (type_options t)
      → push_options (type_options t) (push_arg (subcommand t) [] (push_options general operation))
        ≡ operation
          ++ spaced (option_words general ++ (subcommand t ∷ option_words (type_options t)))
  pushed t general operation h g =
      bare (subcommand t) (push_options general operation) (type_options t) g
      ∙ ap (λ a. a ++ spaced (subcommand t ∷ option_words (type_options t)))
          (push_options-words general operation h)
      ∙ append_assoc operation (spaced (option_words general)) _
      ∙ ap (λ a. operation ++ a)
          (sym
            (spaced-append (option_words general) (subcommand t ∷ option_words (type_options t))))

  by_type :
      (t : FcnetConfigurationType I) (acc : Text)
      → push_type I t acc ≡ push_options (type_options t) (push_arg (subcommand t) [] acc)
  unfolding push_options
  by_type simple_type acc = refl
  by_type (netns_type o) acc = refl

  pub arguments-words :
      (operation : Text) (c : FcnetConfiguration I)
      → HasNoEmptyValue c
      → arguments I operation c ≡ operation ++ spaced (words c)
  unfolding arguments push_options
  arguments-words operation c (h, g) =
      by_type c.configuration_type (push_options (general_options c) operation)
      ∙ pushed c.configuration_type (general_options c) operation h g
