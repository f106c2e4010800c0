-- ===== src/Arguments/Lookup.antt =====
-- Which options the maps of src/executor/arguments.rs hold.
use fctools.Base.{◌≡◌, refl, Bool, true, false, Option, none, some, [], ◌∷◌, arith, if◌then◌else◌}
use fctools.Text.{Text, txt, text_eq, text_eq_iff}
use fctools.FilePath.{FilePath}
use fctools.Arguments.Printing.{decimal}
use fctools.Arguments.{
  VmmApiSocket, disabled, enabled, VmmArguments, ConfigurationFileOverride, no_override, disable,
  enable, JailerArguments, TextTable, ArgValue, some_value, some_borrowed, no_value,
  log_level_to_string, ArgTable, lookup, insert, lookup-insert, NodupKeys, insert-NodupKeys,
  insert_when, insert_some, insert_many, insert_api, insert_config, many, assignments,
  cgroup_version_text, vmm_args, jailer_args,
}

-- The first of two values that is there.
abbrev pub or_else : Option ArgValue → Option ArgValue → Option ArgValue
or_else none later = later
or_else (some v) later = some v

abbrev pub flagged : Bool → Option ArgValue
flagged true = some no_value
flagged false = none

abbrev pub valued : {A : Type 0} → (A → ArgValue) → Option A → Option ArgValue
valued f none = none
valued f (some a) = some (f a)

lookup-insert_when :
    (on : Bool) (key k : Text) (args : ArgTable)
    → lookup k (insert_when on key args)
      ≡ (if text_eq key k then or_else (flagged on) (lookup k args) else lookup k args)
lookup-insert_when true key k args = lookup-insert key k no_value args
lookup-insert_when false key k args = ground arith

lookup-insert_some :
    {A : Type 0} (o : Option A) (key k : Text) (f : A → ArgValue) (args : ArgTable)
    → lookup k (insert_some o key f args)
      ≡ (if text_eq key k then or_else (valued f o) (lookup k args) else lookup k args)
lookup-insert_some none key k f args = ground arith
lookup-insert_some (some a) key k f args = lookup-insert key k (f a) args

abbrev pub effective_config : ConfigurationFileOverride → Option FilePath → Option ArgValue
effective_config no_override none = none
effective_config no_override (some path) = some (some_value path)
effective_config disable path = none
effective_config (enable path) own = some (some_value path)

lookup-insert_config :
    (o : ConfigurationFileOverride) (path : Option FilePath) (k : Text) (args : ArgTable)
    → lookup k (insert_config o path args) ≡ (
        if text_eq (txt "config-file") k
        then or_else (effective_config o path) (lookup k args)
        else lookup k args)
lookup-insert_config no_override none k args = ground arith
lookup-insert_config no_override (some path) k args = lookup-insert _ k _ args
lookup-insert_config disable path k args = ground arith
lookup-insert_config (enable path) own k args = lookup-insert _ k _ args

abbrev pub api_sock : VmmApiSocket → Option ArgValue
api_sock disabled = none
api_sock (enabled path) = some (some_value path)

abbrev pub no_api : VmmApiSocket → Option ArgValue
no_api disabled = some no_value
no_api (enabled path) = none

lookup-insert_api :
    (socket : VmmApiSocket) (k : Text)
    → lookup k (insert_api socket []) ≡ (
        if text_eq (txt "no-api") k
        then no_api socket
        else if text_eq (txt "api-sock") k
        then api_sock socket
        else none)
unfolding lookup insert
lookup-insert_api disabled k =
    ground (arith, text_eq_iff (txt "no-api") k, text_eq_iff (txt "api-sock") k)
lookup-insert_api (enabled path) k =
    ground (arith, text_eq_iff (txt "no-api") k, text_eq_iff (txt "api-sock") k)

or_else-none : (o : Option ArgValue) → or_else o none ≡ o
or_else-none none = refl
or_else-none (some v) = refl

ruleset layers = (
  lookup-insert_when, lookup-insert_some, lookup-insert_config, lookup-insert_api, lookup-insert,
  or_else-none,
)

insert_when-NodupKeys :
    (on : Bool) (key : Text) (args : ArgTable)
    → NodupKeys args
    → NodupKeys (insert_when on key args)
insert_when-NodupKeys true key args h = insert-NodupKeys key no_value args h
insert_when-NodupKeys false key args h = h

insert_some-NodupKeys :
    {A : Type 0} (o : Option A) (key : Text) (f : A → ArgValue) (args : ArgTable)
    → NodupKeys args
    → NodupKeys (insert_some o key f args)
insert_some-NodupKeys none key f args h = h
insert_some-NodupKeys (some a) key f args h = insert-NodupKeys key (f a) args h

insert_config-NodupKeys :
    (o : ConfigurationFileOverride) (path : Option FilePath) (args : ArgTable)
    → NodupKeys args
    → NodupKeys (insert_config o path args)
insert_config-NodupKeys no_override path args h =
    insert_some-NodupKeys path (txt "config-file") some_value args h
insert_config-NodupKeys disable path args h = h
insert_config-NodupKeys (enable path) own args h =
    insert-NodupKeys (txt "config-file") (some_value path) args h

insert_api-NodupKeys : (socket : VmmApiSocket) → NodupKeys (insert_api socket [])
insert_api-NodupKeys disabled = insert-NodupKeys (txt "no-api") no_value [] tt
insert_api-NodupKeys (enabled path) = insert-NodupKeys (txt "api-sock") (some_value path) [] tt

module _ (a : VmmArguments) (config_override : ConfigurationFileOverride) where
  abbrev option : Text → Option ArgValue
  option key = lookup key (vmm_args a config_override)

  -- What `firecracker` is told. The socket: exactly one of `--no-api` and `--api-sock`, after the
  -- field. The configuration file: that of the override if it enables one, none if it disables it,
  -- and that of the arguments otherwise. Each other option: exactly if its field is set, with the
  -- value of the field.
  pub vmm_args_lem :
      (option (txt "no-api") ≡ no_api a.api_socket)
      × (option (txt "api-sock") ≡ api_sock a.api_socket)
      × (option (txt "config-file") ≡ effective_config config_override a.config_path)
      × (option (txt "level") ≡ valued (λ l. some_value (log_level_to_string l)) a.log_level)
      × (option (txt "log-path") ≡ valued some_value a.log_path)
      × (option (txt "show-log-origin") ≡ flagged a.show_log_origin)
      × (option (txt "module") ≡ valued some_borrowed a.log_module)
      × (option (txt "show-level") ≡ flagged a.show_log_level)
      × (option (txt "boot-timer") ≡ flagged a.enable_boot_timer)
      × (option (txt "http-api-max-payload-size")
          ≡ valued (λ n. some_value (decimal n)) a.api_max_payload_bytes)
      × (option (txt "metadata") ≡ valued some_value a.metadata_path)
      × (option (txt "metrics-path") ≡ valued some_value a.metrics_path)
      × (option (txt "mmds-size-limit") ≡ valued (λ n. some_value (decimal n)) a.mmds_size_limit)
      × (option (txt "no-seccomp") ≡ flagged a.disable_seccomp)
      × (option (txt "seccomp-filter") ≡ valued some_value a.seccomp_path)
  unfolding vmm_args text_eq
  vmm_args_lem = (
    simp layers,
    simp layers,
    simp layers,
    simp layers,
    simp layers,
    simp layers,
    simp layers,
    simp layers,
    simp layers,
    simp layers,
    simp layers,
    simp layers,
    simp layers,
    simp layers,
    simp layers,
  )

  -- No option is given twice.
  pub vmm_args-NodupKeys : NodupKeys (vmm_args a config_override)
  unfolding vmm_args
  vmm_args-NodupKeys = insert_some-NodupKeys a.seccomp_path _ _ _ (
      insert_when-NodupKeys a.disable_seccomp _ _ (
        insert_some-NodupKeys a.mmds_size_limit _ _ _ (
          insert_some-NodupKeys a.metrics_path _ _ _ (
            insert_some-NodupKeys a.metadata_path _ _ _ (
              insert_some-NodupKeys a.api_max_payload_bytes _ _ _ (
                insert_when-NodupKeys a.enable_boot_timer _ _ (
                  insert_when-NodupKeys a.show_log_level _ _ (
                    insert_some-NodupKeys a.log_module _ _ _ (
                      insert_when-NodupKeys a.show_log_origin _ _ (
                        insert_some-NodupKeys a.log_path _ _ _ (
                          insert_some-NodupKeys a.log_level _ _ _ (
                            insert_config-NodupKeys config_override a.config_path _
                              (insert_api-NodupKeys a.api_socket)))))))))))))

abbrev pub listed : TextTable Text → Option ArgValue
listed [] = none
listed (pair ∷ values) = some (many (assignments (pair ∷ values)))

lookup-insert_many :
    (values : TextTable Text) (key k : Text) (args : ArgTable)
    → lookup k (insert_many values key args)
      ≡ (if text_eq key k then or_else (listed values) (lookup k args) else lookup k args)
lookup-insert_many [] key k args = ground arith
lookup-insert_many (pair ∷ values) key k args = lookup-insert key k _ args

lookup-nil : (k : Text) → lookup {V = ArgValue} k [] ≡ none
unfolding lookup
lookup-nil k = refl

ruleset jailer_layers = (layers, lookup-insert_many, lookup-nil)

module _ (a : JailerArguments) (firecracker_path : FilePath) where
  abbrev jailer_option : Text → Option ArgValue
  jailer_option key = lookup key (jailer_args a firecracker_path)

  -- What `jailer` is told: always the binary, the user, the group and the jail; each other option
  -- exactly if its field is set or its map is not empty.
  pub jailer_args_lem :
      (jailer_option (txt "exec-file") ≡ some (some_value firecracker_path))
      × (jailer_option (txt "uid") ≡ some (some_value (decimal a.uid)))
      × (jailer_option (txt "gid") ≡ some (some_value (decimal a.gid)))
      × (jailer_option (txt "id") ≡ some (some_value a.jail_id))
      × (jailer_option (txt "cgroup") ≡ listed a.cgroup_values)
      × (jailer_option (txt "cgroup-version")
          ≡ valued (λ v. some_value (cgroup_version_text v)) a.cgroup_version)
      × (jailer_option (txt "chroot-base-dir") ≡ valued some_value a.chroot_base_dir)
      × (jailer_option (txt "daemonize") ≡ flagged a.daemonize)
      × (jailer_option (txt "netns") ≡ valued some_value a.network_namespace_path)
      × (jailer_option (txt "new-pid-ns") ≡ flagged a.exec_in_new_pid_ns)
      × (jailer_option (txt "parent-cgroup") ≡ valued some_borrowed a.parent_cgroup)
      × (jailer_option (txt "resource-limit") ≡ listed a.resource_limits)
  unfolding jailer_args text_eq
  jailer_args_lem = (
    simp jailer_layers,
    simp jailer_layers,
    simp jailer_layers,
    simp jailer_layers,
    simp jailer_layers,
    simp jailer_layers,
    simp jailer_layers,
    simp jailer_layers,
    simp jailer_layers,
    simp jailer_layers,
    simp jailer_layers,
    simp jailer_layers,
  )
