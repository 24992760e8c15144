-- ===== src/Pipeline/Artifacts.antt =====
-- generateArtifactArguments of internal/controller/pipeline_controller.go.
use ocular.Prelude.{String, List, ◌∷◌, ◌++◌, if◌then◌else◌, map}
use ocular.Prelude.FilePath.{clean, is_abs, join}
use ocular.Api.Pipeline.{pipeline_results_directory, pipeline_metadata_directory}

-- one artifact, relative to a directory unless its path is absolute
unfoldable pub artifact_arg : String → String → String
artifact_arg dir artifact =
    let artifact_path = clean artifact in
    if is_abs artifact_path then artifact_path else join dir artifact_path

unfoldable pub generate_artifact_arguments : List String → List String → List String
unfolding artifact_arg
generate_artifact_arguments metadata_files artifacts =
    "--" ∷ map (artifact_arg pipeline_results_directory) artifacts
    ++ map (artifact_arg pipeline_metadata_directory) metadata_files
