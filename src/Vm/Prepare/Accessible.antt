-- ===== src/Vm/Prepare/Accessible.antt =====
-- The accessible paths that `prepare_arced` of src/vm/mod.rs gets together.
use fctools.Base.{◌≡◌, refl, sym, ap, ◌∙◌, Bool, true, false, Option, none, some, List, [], ok}
use fctools.Base.Action.{bind-ok}
use fctools.Text.{Text}
use fctools.FilePath.{FilePath}
use fctools.Host.{Host}
use fctools.Process.{VmmProcess, inner_to_outer_path}
use fctools.Vm.Configuration.{VmConfigurationData}
use fctools.Vm.Machine.{Json, AccessiblePaths}
use fctools.Vm.Prepare.{
  log_path_of, metrics_path_of, uds_path_of, no_paths, prepare_file, drive_sockets,
  prepare_optional, make_accessible,
}

module _ (H : Host) (J : Json) where
  -- A file that was made, or none.
  abbrev pub mapped_path : VmmProcess H → Option FilePath → Option FilePath
  mapped_path p none = none
  mapped_path p (some path) = some (inner_to_outer_path H p path)

  assigned :
      VmmProcess H
      → Option FilePath
      → (FilePath → AccessiblePaths → AccessiblePaths)
      → AccessiblePaths
      → AccessiblePaths
  assigned p none assign paths = paths
  assigned p (some path) assign paths = assign (inner_to_outer_path H p path) paths

  prepare_optional-ok :
      (p : VmmProcess H) (o : Option FilePath) (only_tree : Bool)
      (assign : FilePath → AccessiblePaths → AccessiblePaths) (paths : AccessiblePaths)
      (w : H.World) {r : AccessiblePaths}
      → (prepare_optional H J p o only_tree assign paths w).0 ≡ ok r
      → assigned p o assign paths ≡ r
  unfolding prepare_optional assigned
  prepare_optional-ok p none only_tree assign paths w e = cc
  prepare_optional-ok p (some path) only_tree assign paths w e =
      let (a, s, x, y) =
        bind-ok (prepare_file H J (inner_to_outer_path H p path) only_tree) _ w e in
      cc

  abbrev set_metrics : FilePath → AccessiblePaths → AccessiblePaths
  set_metrics path r = record r { metrics_path = some path }

  abbrev set_log : FilePath → AccessiblePaths → AccessiblePaths
  set_log path r = record r { log_path = some path }

  abbrev set_vsock : FilePath → AccessiblePaths → AccessiblePaths
  set_vsock path r = record r { vsock_multiplexer_path = some path }

  settled :
      (p : VmmProcess H) (log metrics uds : Option FilePath) (sockets : List (Text × FilePath))
      → assigned p metrics set_metrics (
          assigned p log set_log (
            assigned p uds set_vsock (
              assigned p metrics set_metrics
                (assigned p log set_log (record no_paths { drive_sockets = sockets })))))
        ≡ record {
          drive_sockets = sockets;
          metrics_path = mapped_path p metrics;
          log_path = mapped_path p log;
          vsock_multiplexer_path = mapped_path p uds;
          vsock_listener_paths = [];
        }
  unfolding assigned
  settled p none none none sockets = refl
  settled p none none (some c) sockets = refl
  settled p none (some b) none sockets = refl
  settled p none (some b) (some c) sockets = refl
  settled p (some a) none none sockets = refl
  settled p (some a) none (some c) sockets = refl
  settled p (some a) (some b) none sockets = refl
  settled p (some a) (some b) (some c) sockets = refl

  -- The sockets of the drives, and the outer path of each file that the configuration has.
  unfoldable pub accessible_of : VmmProcess H → VmConfigurationData → AccessiblePaths
  accessible_of p d = record {
    drive_sockets = drive_sockets H J p d.drives [];
    metrics_path = mapped_path p (metrics_path_of d.metrics_system);
    log_path = mapped_path p (log_path_of d.logger_system);
    vsock_multiplexer_path = mapped_path p (uds_path_of d.vsock_device);
    vsock_listener_paths = [];
  }

  pub make_accessible-ok :
      (p : VmmProcess H) (d : VmConfigurationData) (w : H.World) {r : AccessiblePaths}
      → (make_accessible H J p d w).0 ≡ ok r
      → accessible_of p d ≡ r
  unfolding make_accessible accessible_of
  make_accessible-ok p d w e =
      let log = log_path_of d.logger_system in
      let metrics = metrics_path_of d.metrics_system in
      let uds = uds_path_of d.vsock_device in
      let base : AccessiblePaths = record no_paths {
        drive_sockets = drive_sockets H J p d.drives [];
      } in
      let (r1, w1, x1, y1) = bind-ok (prepare_optional H J p log false set_log base) _ w e in
      let e1 = prepare_optional-ok p log false set_log base w (ap (λ t. t.0) x1) in
      let (r2, w2, x2, y2) =
        bind-ok (prepare_optional H J p metrics false set_metrics r1) _ w1 y1 in
      let e2 = prepare_optional-ok p metrics false set_metrics r1 w1 (ap (λ t. t.0) x2) in
      let (r3, w3, x3, y3) = bind-ok (prepare_optional H J p uds true set_vsock r2) _ w2 y2 in
      let e3 = prepare_optional-ok p uds true set_vsock r2 w2 (ap (λ t. t.0) x3) in
      let (r4, w4, x4, y4) = bind-ok (prepare_optional H J p log false set_log r3) _ w3 y3 in
      let e4 = prepare_optional-ok p log false set_log r3 w3 (ap (λ t. t.0) x4) in
      let e5 = prepare_optional-ok p metrics false set_metrics r4 w4 y4 in
      sym (settled p log metrics uds base.drive_sockets)
      ∙ ap
          (λ r.
            assigned p metrics set_metrics (
              assigned p log set_log (assigned p uds set_vsock (assigned p metrics set_metrics r))))
          e1
      ∙ ap
          (λ r.
            assigned p metrics set_metrics (assigned p log set_log (assigned p uds set_vsock r)))
          e2
      ∙ ap (λ r. assigned p metrics set_metrics (assigned p log set_log r)) e3
      ∙ ap (assigned p metrics set_metrics) e4
      ∙ e5
