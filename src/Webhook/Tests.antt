-- ===== src/Webhook/Tests.antt =====
-- The theorems on the webhooks at concrete objects.
use ocular.Prelude.{String, List, [], ◌∷◌}
use ocular.Kube.Errors.{Result, ok}
use ocular.Api.Pipeline.{Pipeline}
use ocular.Api.Resources.{Object, Profile, DownloaderSpec, UploaderSpec}
use ocular.Samples.{depth, git, upload, quick, scan}

abbrev pipelines_in : String → Result (List Pipeline)
pipelines_in namespace = ok (scan ∷ [])

abbrev profiles_in : String → Result (List Profile)
profiles_in namespace = ok (quick ∷ [])

-- an uploader that requires nothing
abbrev old_upload : Object UploaderSpec
old_upload = record upload { spec = record (upload.spec) { parameters = [] } }

abbrev new_git : Object DownloaderSpec
new_git = record git { spec = record (git.spec) { parameters = depth ∷ [] } }
