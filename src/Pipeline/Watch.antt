-- ===== src/Pipeline/Watch.antt =====
-- podStateChangedPredicate of internal/controller/constants.go: which updates of a pod lead to a
-- reconciliation of its pipeline.
use ocular.Prelude.{Bool, true, false, not, Option, some, List, ◌≡◌, refl}
use ocular.Kube.{ContainerStatus, Pod, PodPhase}

-- == on phases; any two phases that the code does not name are taken for one
abbrev same_phase : PodPhase → PodPhase → Bool
same_phase PodPhase.pending PodPhase.pending = true
same_phase PodPhase.running PodPhase.running = true
same_phase PodPhase.succeeded PodPhase.succeeded = true
same_phase PodPhase.failed PodPhase.failed = true
same_phase PodPhase.other PodPhase.other = true
same_phase _ _ = false

-- UpdateFunc; none for an object that is not a pod
unfoldable pub pod_state_changed : Option Pod → Option Pod → Bool
pod_state_changed (some old) (some new) = not (same_phase old.status.phase new.status.phase)
pod_state_changed _ _ = true

same_phase_refl : (phase : PodPhase) → same_phase phase phase ≡ true
same_phase_refl PodPhase.pending = refl
same_phase_refl PodPhase.running = refl
same_phase_refl PodPhase.succeeded = refl
same_phase_refl PodPhase.failed = refl
same_phase_refl PodPhase.other = refl

-- An update that ends containers of the pod, but leaves its phase, is not seen.
pod_state_changed-containers :
    (pod : Pod) (init containers : List ContainerStatus)
    → pod_state_changed (some pod) (
        some (record pod {
          status = record (pod.status) {
            init_container_statuses = init;
            container_statuses = containers;
          };
        }))
      ≡ false
unfolding pod_state_changed
pod_state_changed-containers pod init containers = rw (same_phase_refl pod.status.phase) refl
