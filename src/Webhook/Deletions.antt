-- ===== src/Webhook/Deletions.antt =====
-- Which deletions the webhooks of downloaders and uploaders accept.
use ocular.Prelude.{
  String, Bool, false, List, [], ◌∷◌, ◌≡◌, ◌↔◌, inl, inr, refl, any, map, Bool-cases, filter,
}
use ocular.Kube.Errors.{Result, ok}
use ocular.Api.Pipeline.{Pipeline}
use ocular.Api.Resources.{Object, DownloaderSpec, UploaderSpec, Profile}
use ocular.Params.References.{ref_matches}
use ocular.Validators.Verdict.{accept}
use ocular.Webhook.Dependants.{forbid_deletion}
use ocular.Webhook.Uploader.{validate_uploader_delete, profiles_with}

-- a pipeline that references the downloader
abbrev pub uses_downloader : Object DownloaderSpec → Pipeline → Bool
uses_downloader d p = ref_matches p.spec.downloader_ref d.meta.name "Downloader"

-- a profile that references the uploader
abbrev pub uses_uploader : Object UploaderSpec → Profile → Bool
uses_uploader u p = any (λ r. ref_matches r u.meta.name "Uploader") p.spec.uploader_refs

-- a deletion passes exactly if the list of the dependants' names is empty
deletion-accepts {ℓ} :
    {A : Type ℓ} (object text sep : String) (shown : A → String) (xs : List A)
    → (forbid_deletion object text sep (map shown xs) accept ≡ accept) ↔ (xs ≡ [])
unfolding forbid_deletion
deletion-accepts object text sep shown [] = (λ h. refl, λ h. refl)
deletion-accepts object text sep shown (x ∷ xs) = (λ h. absurd (cc), λ h. absurd (cc))

filter-nil {ℓ} : {A : Type ℓ} (p : A → Bool) (xs : List A) → (filter p xs ≡ []) ↔ (any p xs ≡ false)
filter-nil p [] = (λ h. refl, λ h. refl)
filter-nil p (x ∷ xs) = elim (Bool-cases (p x)) [
  | inl e ↦ rw e (λ h. absurd (cc), λ h. absurd (cc))
  | inr e ↦ rw e (filter-nil p xs)
]

then_iff {ℓ κ μ} : {A : Type ℓ} {B : Type κ} {C : Type μ} → A ↔ B → B ↔ C → A ↔ C
then_iff f g = (λ a. g.0 (f.0 a), λ c. f.1 (g.1 c))

profiles_with-nil :
    (u : Object UploaderSpec) (ps : List Profile)
    → (profiles_with u.meta.name "Uploader" ps ≡ []) ↔ (any (uses_uploader u) ps ≡ false)
unfolding profiles_with
profiles_with-nil u ps = filter-nil (uses_uploader u) ps

module _ (profiles_in : String → Result (List Profile)) (u : Object UploaderSpec)
    (ps : List Profile) where
  -- Where the profiles of the namespace can be listed, an uploader may be deleted exactly if none
  -- of them references it.
  pub validate_uploader_delete-accepts :
      profiles_in u.meta.namespace ≡ ok ps
      → (validate_uploader_delete profiles_in u ≡ accept) ↔ (any (uses_uploader u) ps ≡ false)
  unfolding validate_uploader_delete
  validate_uploader_delete-accepts h = rw h (
      then_iff (deletion-accepts u.meta.name _ _ (λ (p : Profile). p.meta.name) _)
        (profiles_with-nil u ps))
