-- ===== src/Vm/Prepare/Places.antt =====
-- Where the accessible paths of `prepare_arced` of src/vm/mod.rs lie, said of the devices one by one.
use mathlib.Core.Option.{or_else}
use fctools.Base.{◌≡◌, refl, ap, ◌∙◌, Option, none, some, List, [], ◌∷◌, arith, if◌then◌else◌}
use fctools.Text.{Text, text_eq}
use fctools.FilePath.{FilePath}
use fctools.Arguments.{lookup, lookup-insert}
use fctools.Host.{Host}
use fctools.Models.{Drive, LoggerSystem, MetricsSystem, VsockDevice}
use fctools.Process.{VmmProcess, inner_to_outer_path}
use fctools.Vm.Configuration.{VmConfigurationData}
use fctools.Vm.Machine.{Json, AccessiblePaths}
use fctools.Vm.Prepare.{insert_socket, drive_sockets, log_path_of, metrics_path_of, uds_path_of}
use fctools.Vm.Prepare.Accessible.{mapped_path, accessible_of}

module _ (outer : FilePath → FilePath) where
  abbrev pub placed : Option FilePath → Option FilePath
  placed none = none
  placed (some path) = some (outer path)

  abbrev pub log_place : Option LoggerSystem → Option FilePath
  log_place none = none
  log_place (some logger) = placed logger.log_path

  abbrev pub metrics_place : Option MetricsSystem → Option FilePath
  metrics_place none = none
  metrics_place (some metrics) = some (outer metrics.metrics_path)

  abbrev pub vsock_place : Option VsockDevice → Option FilePath
  vsock_place none = none
  vsock_place (some vsock) = some (outer vsock.uds_path)

  -- The socket of the last drive with this id that has one.
  abbrev pub socket_place : Text → List Drive → Option FilePath
  socket_place drive_id [] = none
  socket_place drive_id (drive ∷ drives) =
      or_else (socket_place drive_id drives)
        (if text_eq drive.drive_id drive_id then placed drive.socket else none)

  -- The files and sockets of the devices, each at its outer path, and no listener.
  abbrev pub Accessible : VmConfigurationData → AccessiblePaths → Type 0
  Accessible d paths =
      ((drive_id : Text) → lookup drive_id paths.drive_sockets ≡ socket_place drive_id d.drives)
      × (paths.metrics_path ≡ metrics_place d.metrics_system)
      × (paths.log_path ≡ log_place d.logger_system)
      × (paths.vsock_multiplexer_path ≡ vsock_place d.vsock_device)
      × (paths.vsock_listener_paths ≡ [])

module _ (H : Host) (J : Json) (p : VmmProcess H) where
  abbrev outer : FilePath → FilePath
  outer = p.executor.inner_to_outer_path p.installation

  or_else_assoc : (a b c : Option FilePath) → or_else a (or_else b c) ≡ or_else (or_else a b) c
  unfolding or_else
  or_else_assoc none b c = refl
  or_else_assoc (some x) b c = refl

  lookup-insert_socket :
      (drive_id k : Text) (socket : Option FilePath) (sockets : List (Text × FilePath))
      → lookup k (insert_socket H J p drive_id socket sockets)
        ≡ or_else (if text_eq drive_id k then placed outer socket else none) (lookup k sockets)
  unfolding inner_to_outer_path or_else
  lookup-insert_socket drive_id k none sockets = ground arith
  lookup-insert_socket drive_id k (some path) sockets =
      ground (arith, lookup-insert drive_id k (outer path) sockets)

  lookup-drive_sockets :
      (k : Text) (drives : List Drive) (sockets : List (Text × FilePath))
      → lookup k (drive_sockets H J p drives sockets)
        ≡ or_else (socket_place outer k drives) (lookup k sockets)
  unfolding drive_sockets or_else
  lookup-drive_sockets k [] sockets = refl
  lookup-drive_sockets k (drive ∷ drives) sockets =
      lookup-drive_sockets k drives (insert_socket H J p drive.drive_id drive.socket sockets)
      ∙ ap (or_else (socket_place outer k drives))
          (lookup-insert_socket drive.drive_id k drive.socket sockets)
      ∙ or_else_assoc (socket_place outer k drives) _ (lookup k sockets)

  or_else-none : (a : Option FilePath) → or_else a none ≡ a
  unfolding or_else
  or_else-none none = refl
  or_else-none (some x) = refl

  path-placed : (o : Option FilePath) → mapped_path H J p o ≡ placed outer o
  unfolding inner_to_outer_path
  path-placed none = refl
  path-placed (some path) = refl

  log-placed : (o : Option LoggerSystem) → mapped_path H J p (log_path_of o) ≡ log_place outer o
  log-placed none = refl
  log-placed (some logger) = path-placed logger.log_path

  metrics-placed :
      (o : Option MetricsSystem) → mapped_path H J p (metrics_path_of o) ≡ metrics_place outer o
  unfolding inner_to_outer_path
  metrics-placed none = refl
  metrics-placed (some metrics) = refl

  vsock-placed : (o : Option VsockDevice) → mapped_path H J p (uds_path_of o) ≡ vsock_place outer o
  unfolding inner_to_outer_path
  vsock-placed none = refl
  vsock-placed (some vsock) = refl

  pub accessible_of-Accessible :
      (d : VmConfigurationData) → Accessible outer d (accessible_of H J p d)
  unfolding accessible_of lookup
  accessible_of-Accessible d = (
    λ k. lookup-drive_sockets k d.drives [] ∙ or_else-none (socket_place outer k d.drives),
    metrics-placed d.metrics_system,
    log-placed d.logger_system,
    vsock-placed d.vsock_device,
    refl,
  )
