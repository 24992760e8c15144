-- ===== src/Pipeline/Metrics.antt =====
-- The gauge pipelines_active against the metrics finalizer, over the calls of one reconciliation
-- of internal/controller/pipeline_controller.go.
use ocular.Prelude.{
  ℕ, ◌+◌, ◌-◌, String, Bool, true, false, not, ◌&&◌, Option, none, some, List, [], ◌∷◌, ◌++◌,
  if◌then◌else◌, ◌≡◌, refl, arith,
}
use ocular.Prelude.Int.{ℤ}
use ocular.Kube.Time.{Time, is_zero}
use ocular.Kube.{Pod}
use ocular.Kube.Errors.{Error, Result, ok, err}
use ocular.Kube.Step.{Step, go, must, ◌>>=◌}
use ocular.Api.Pipeline.{Pipeline}
use ocular.Pipeline.Names.{metrics_finalizer}
use ocular.Pipeline.Completion.{
  Call, patch_resource, patch_status, delete, create_or_update_pod, inc_running, dec_running,
  inc_pods_created, add_completed, observe_duration, Writer, patch_and_return, handle_completion,
  settle_metrics, await_ttl, handle_post_completion,
}
use ocular.Kube.{OperationResult}
use ocular.Api.Resources.{ProfileSpec, DownloaderSpec, UploaderSpec}
use ocular.Resources.References.{
  Invocation, profile_invocation_from_reference, downloader_invocation_from_reference,
}
use ocular.Pipeline.Populate.{populate_scan_pod}
use ocular.Pipeline.Reconcile.{
  Env, release, acquire, progress, with_pod, with_uploaders, with_downloader, with_profile, run,
  pod_error, pod_seed, uploader_invocations_from_profile, exceeds_lifetime, reconcile_pipeline,
}

-- The finalizer in the server's object, and the gauge summed over its labels.
pub record World : Type 0 where
  pub finalized : Bool
  pub active : ℕ

abbrev patched : Writer → Result Pipeline → Pipeline → World → World
patched w (ok r) p s = record s { finalized = w.contains_finalizer p metrics_finalizer }
patched w (err e) p s = s

-- the effect of one call; a patch that is refused changes nothing
abbrev pub apply : Writer → Call → World → World
apply w (patch_resource p) s = patched w (w.patch_resource_reply p) p s
apply w (inc_running l) s = record s { active = s.active + 1 }
apply w (dec_running l) s = record s { active = s.active - 1 }
apply w (patch_status p) s = s
apply w (delete p) s = s
apply w (create_or_update_pod p) s = s
apply w (inc_pods_created l) s = s
apply w (add_completed l p) s = s
apply w (observe_duration l p d) s = s

abbrev pub apply_all : Writer → List Call → World → World
apply_all w [] s = s
apply_all w (c ∷ cs) s = apply_all w cs (apply w c s)

abbrev pub count : Bool → ℕ
count true = 1
count false = 0

-- the gauge counts this pipeline, beside n others, exactly while the finalizer is there
abbrev pub Counted : ℕ → World → Type 0
Counted n s = s.active ≡ n + count s.finalized

-- what controllerutil says of its functions
pub record FinalizerLaws (w : Writer) : Type 0 where
  pub contains-remove :
      (p : Pipeline) (f : String) → w.contains_finalizer (w.remove_finalizer p f) f ≡ false
  pub contains-add :
      (p : Pipeline) (f : String) → w.contains_finalizer (w.add_finalizer p f) f ≡ true

abbrev pub start : Writer → ℕ → Pipeline → World
start w n p =
    let f = w.contains_finalizer p metrics_finalizer in
    record { finalized = f; active = n + count f }

apply_all-append :
    (w : Writer) (xs ys : List Call) (s : World)
    → apply_all w (xs ++ ys) s ≡ apply_all w ys (apply_all w xs s)
apply_all-append w [] ys s = refl
apply_all-append w (x ∷ xs) ys s = apply_all-append w xs ys (apply w x s)

module _ (env : Env) (laws : FinalizerLaws env.writer) (n : ℕ) (p : Pipeline) where
  abbrev Keeps : Step Call (Unit {0}) → Type 0
  Keeps m = Counted n (apply_all env.writer m.0 (start env.writer n p))

  release-Keeps : env.writer.contains_finalizer p metrics_finalizer ≡ true → Keeps (release env p)
  unfolding release
  release-Keeps h = ground (arith, laws.contains-remove p metrics_finalizer)

  acquire-Keeps : env.writer.contains_finalizer p metrics_finalizer ≡ false → Keeps (acquire env p)
  unfolding acquire
  acquire-Keeps h = ground (arith, laws.contains-add p metrics_finalizer)

  if-Keeps :
      (b : Bool) (x y : Step Call (Unit {0}))
      → (b ≡ true → Keeps x)
      → (b ≡ false → Keeps y)
      → Keeps (if b then x else y)
  if-Keeps true x y h k = h refl
  if-Keeps false x y h k = k refl

  must-Keeps {ℓ} :
      {A : Type ℓ} (f : Error → Option Error) (r : Result A) (k : A → Step Call (Unit {0}))
      → ((a : A) → Keeps (k a))
      → Keeps (must f r >>= k)
  must-Keeps f (ok a) k h = h a
  must-Keeps f (err e) k h = refl

-- status patches, deletions and requeues touch neither the finalizer nor the gauge
handle_completion-neutral :
    (w : Writer) (t : Time) (p : Pipeline) (pod : Pod) (s : World)
    → apply_all w (handle_completion w t p pod).0 s ≡ s
unfolding handle_completion
handle_completion-neutral w t p pod s = ground arith

await_ttl-neutral :
    (w : Writer) (t : Time) (p : Pipeline) (ttl : Option ℤ) (s : World)
    → apply_all w (await_ttl w t p ttl).0 s ≡ s
unfolding await_ttl
await_ttl-neutral w t p none s = refl
await_ttl-neutral w t p (some ttl) s = ground arith

module _ (env : Env) (laws : FinalizerLaws env.writer) (n : ℕ) (p : Pipeline) where
  progress-Keeps : (pod : Pod) → Keeps env laws n p (progress env p pod)
  unfolding progress
  progress-Keeps pod =
      if-Keeps env laws n p (not (is_zero p.status.start_time)) _ _
        (λ h.
          if-Keeps env laws n p (not (env.writer.contains_finalizer p metrics_finalizer)) _ _
            (λ gone. acquire-Keeps env laws n p (ground arith))
            (λ there. rw (
              handle_completion-neutral env.writer env.completion_clock p pod
                (start env.writer n p))))
        (λ h. unfold patch_and_return in refl)

  settle_metrics-Keeps :
      Counted n (apply_all env.writer (settle_metrics env.writer p).0 (start env.writer n p))
  unfolding settle_metrics
  settle_metrics-Keeps = ground (arith, laws.contains-remove p metrics_finalizer)

  with_pod-Keeps : (made : OperationResult × Pod) → Keeps env laws n p (with_pod env p made)
  unfolding with_pod
  with_pod-Keeps (OperationResult.created, pod) = progress-Keeps pod
  with_pod-Keeps (_, pod) = progress-Keeps pod

  with_uploaders-Keeps :
      (profile : Invocation ProfileSpec) (downloader : Invocation DownloaderSpec)
      (uploaders : List (Invocation UploaderSpec))
      → Keeps env laws n p (with_uploaders env p profile downloader uploaders)
  unfolding with_uploaders
  with_uploaders-Keeps profile downloader uploaders =
      must-Keeps env laws n p (pod_error env)
        (env.create_or_update (pod_seed p) (
          populate_scan_pod env.sidecar p profile downloader uploaders
            (env.set_controller_reference p)))
        (with_pod env p) with_pod-Keeps

  with_downloader-Keeps :
      (profile : Invocation ProfileSpec) (downloader : Invocation DownloaderSpec)
      → Keeps env laws n p (with_downloader env p profile downloader)
  unfolding with_downloader
  with_downloader-Keeps profile downloader =
      must-Keeps env laws n p some
        (uploader_invocations_from_profile env.reader p.meta.namespace profile.spec.uploader_refs)
        (with_uploaders env p profile downloader) (with_uploaders-Keeps profile downloader)

  with_profile-Keeps :
      (profile : Invocation ProfileSpec) → Keeps env laws n p (with_profile env p profile)
  unfolding with_profile
  with_profile-Keeps profile =
      must-Keeps env laws n p some
        (downloader_invocation_from_reference env.reader p.meta.namespace p.spec.downloader_ref)
        (with_downloader env p profile) (with_downloader-Keeps profile)

  run-Keeps : Keeps env laws n p (run env p)
  unfolding run
  run-Keeps =
      must-Keeps env laws n p some
        (profile_invocation_from_reference env.reader p.meta.namespace p.spec.profile_ref)
        (with_profile env p) with_profile-Keeps

  -- `bind` after settle_metrics, whose calls have kept the count
  then-neutral :
      (m : Step Call Pipeline) (k : Pipeline → Step Call (Unit {0}))
      → Counted n (apply_all env.writer m.0 (start env.writer n p))
      → ((q : Pipeline) (s : World) → apply_all env.writer (k q).0 s ≡ s)
      → Keeps env laws n p (m >>= k)
  then-neutral (es, go q) k h neutral =
      rw (apply_all-append env.writer es (k q).0 (start env.writer n p), neutral q) h
  then-neutral (es, _) k h neutral = h

  handle_post_completion-Keeps :
      Keeps env laws n p (handle_post_completion env.writer env.completion_clock p)
  unfolding handle_post_completion
  handle_post_completion-Keeps =
      then-neutral (settle_metrics env.writer p)
        (λ q. await_ttl env.writer env.completion_clock q q.spec.ttl_seconds_after_finished)
        settle_metrics-Keeps
        (λ q. await_ttl-neutral env.writer env.completion_clock q q.spec.ttl_seconds_after_finished)

  -- However a reconciliation of a pipeline ends, the gauge of running pipelines, summed over its
  -- labels, counts the pipeline exactly if the server's object has the metrics finalizer, provided
  -- that it did so before and that controllerutil adds and removes a finalizer as it says.
  pub reconcile_pipeline-Counted :
      Counted n (apply_all env.writer (reconcile_pipeline env p).0 (start env.writer n p))
  unfolding reconcile_pipeline
  reconcile_pipeline-Counted =
      if-Keeps env laws n p
        (not (is_zero p.meta.deletion_timestamp)
          && env.writer.contains_finalizer p metrics_finalizer)
        _ _ (λ h. release-Keeps env laws n p (ground arith))
        λ _.
          if-Keeps env laws n p (exceeds_lifetime env p) _ _ (λ _. refl)
            λ _.
              if-Keeps env laws n p (not (is_zero p.status.completion_time)) _ _
                (λ _. handle_post_completion-Keeps) (λ _. run-Keeps)
