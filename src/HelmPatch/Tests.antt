-- ===== src/HelmPatch/Tests.antt =====
-- The plugin on a chart of three small files.
use ocular.Prelude.{concat, true, none, [], ◌∷◌, ◌≡◌, ◌≢◌, refl, eq_iff, All}
use ocular.Prelude.Dict.{lookup, insert}
use ocular.Prelude.FilePath.{join, clean, split, keep_all, join_all, is_abs, keep}
use ocular.Prelude.Split.{split_on, split_from}
use ocular.Kube.Errors.{ok}
use ocular.HelmPatch.Texts.{chart_path, manager_path, configmap_path, replacements}
use ocular.HelmPatch.{
  PluginRequest, Text, patch_helm_chart, edit_files, apply_each, apply_replacement,
  get_file_contents,
}
use ocular.HelmPatch.Laws.{Patched, patch_helm_chart-Patched}

-- every pattern is found, and a replacement marks the text
abbrev text : Text
text = record {
  match_string = λ pattern content. true;
  replace_all_string = λ pattern content replacement. concat content "!";
  render = λ name template values. ok "chart";
  trim_left = λ s cut. s;
  getenv = λ name. "v1.0.0";
  chart_template = "chart";
}

abbrev request : PluginRequest
request = record {
  api_version = "v1alpha1";
  command = "edit";
  universe =
      ("dist/chart/templates/manager/manager.yaml", "manager")
      ∷ ("dist/chart/templates/extras/controller-manager-config.yaml", "config")
      ∷ [];
  config = [];
}

config_path : join "dist" configmap_path ≢ join "dist" manager_path
unfolding join clean split split_on split_from keep_all keep join_all is_abs
config_path e = cc ((eq_iff (join "dist" configmap_path) (join "dist" manager_path)).1 e)

chart_manager : join "dist" chart_path ≢ join "dist" manager_path
unfolding join clean split split_on split_from keep_all keep join_all is_abs
chart_manager e = cc ((eq_iff (join "dist" chart_path) (join "dist" manager_path)).1 e)

chart_config : join "dist" chart_path ≢ join "dist" configmap_path
unfolding join clean split split_on split_from keep_all keep join_all is_abs
chart_config e = cc ((eq_iff (join "dist" chart_path) (join "dist" configmap_path)).1 e)

succeeds : (patch_helm_chart text "dist" request).1 ≡ none
unfolding patch_helm_chart edit_files apply_each apply_replacement get_file_contents lookup insert
    join clean split split_on split_from keep_all keep join_all is_abs
succeeds = refl

patch_helm_chart-Patched_example :
    All (Patched text "dist" request (patch_helm_chart text "dist" request).0) replacements
patch_helm_chart-Patched_example =
    patch_helm_chart-Patched text "dist" request config_path chart_manager chart_config succeeds
