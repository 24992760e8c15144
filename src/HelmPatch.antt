-- ===== src/HelmPatch.antt =====
-- hack/kubebuilder-helm-patch: the plugin that edits the files of a generated Helm chart.
pub mod Texts
pub mod Laws
mod Tests
use ocular.Prelude.{
  String, Bool, true, false, Option, none, some, List, [], ◌∷◌, concat, ◌=ˢ◌, ◌||◌, if◌then◌else◌,
}
use ocular.Prelude.Dict.{Dict, lookup, insert, or_else}
use ocular.Prelude.FilePath.{join}
use ocular.Kube.Errors.{Error, Result, ok, err}
use ocular.HelmPatch.Texts.{Replacement, TextPadding, chart_path, replacements, paddings}

-- the values of a map[string]any, as deep as they are read
pub data Value (A : Type 0) : Type 0 where
  object : Dict A → Value A
  text : String → Value A
  other : Value A

-- external.PluginRequest and external.PluginResponse; a universe maps paths to contents
pub record PluginRequest : Type 0 where
  pub api_version : String
  pub command : String
  pub universe : Dict String
  pub config : Dict (Value (Value (Value (Unit {0}))))

pub record PluginResponse : Type 0 where
  pub api_version : String
  pub command : String
  pub universe : Dict String
  pub error : Option Error

-- Package regexp, by the source of the expression: MatchString, and ReplaceAllString with the
-- replacement last; template.New, Parse and Execute, with the name, the template and the values;
-- strings.TrimLeft and os.Getenv.
pub record Text : Type 0 where
  pub match_string : String → String → Bool
  pub replace_all_string : String → String → String → String
  pub render : String → String → Dict String → Result String
  pub trim_left : String → String → String
  pub getenv : String → String
  -- Chart.yaml.template
  pub chart_template : String

abbrev pub no_response : PluginRequest → PluginResponse
no_response req = record {
  api_version = req.api_version;
  command = req.command;
  universe = [];
  error = none;
}

abbrev pub contents : Option String → Result String
contents none = err (Error.other "file does not exist in universe")
contents (some content) = ok content

unfoldable pub get_file_contents : String → PluginRequest → PluginResponse → Result String
get_file_contents path req resp =
    contents (or_else (lookup path resp.universe) (lookup path req.universe))

abbrev pub bind_result : Result String → (String → Result String) → Result String
bind_result (err e) k = err e
bind_result (ok content) k = k content

abbrev pub unless_error :
    PluginResponse
    → Result String
    → (String → PluginResponse × Option Error)
    → PluginResponse × Option Error
unless_error resp (err e) k = (resp, some e)
unless_error resp (ok content) k = k content

module _ (t : Text) where
  unfoldable pub apply_replacement : Replacement → String → Result String
  apply_replacement r content =
      if t.match_string r.pattern content
      then ok (t.replace_all_string r.pattern content r.replacement)
      else err (Error.other "pattern did not match")

  -- the loop over the replacements of a file
  unfoldable pub apply_each : List Replacement → String → Result String
  unfolding apply_replacement
  apply_each [] content = ok content
  apply_each (r ∷ rs) content =
      bind_result (apply_replacement r content) (λ changed. apply_each rs changed)

unfoldable pub apply_padding : TextPadding → String → String
apply_padding p content = concat p.prefix (concat content p.suffix)

-- The loops of applyReplacements and applyPaddings, which differ in what they do to a content.
module _ {A : Type 0} (edit : A → String → Result String) (output_dir : String)
    (req : PluginRequest) where
  abbrev pub edited : Result String → A → Result String
  edited (err e) a = err e
  edited (ok content) a = edit a content

  abbrev pub file_path : String → String
  file_path path = join output_dir path

  abbrev pub put : String → String → PluginResponse → PluginResponse
  put path content resp = record resp { universe = insert path content resp.universe }

  unfoldable pub edit_files : Dict A → PluginResponse → PluginResponse × Option Error
  unfolding get_file_contents
  edit_files [] resp = (resp, none)
  edit_files ((path, a) ∷ files) resp =
      unless_error resp (edited (get_file_contents (file_path path) req resp) a)
        (λ content. edit_files files (put (file_path path) content resp))

module _ (t : Text) (output_dir : String) (req : PluginRequest) where
  unfoldable pub apply_replacements : PluginResponse → PluginResponse × Option Error
  unfolding edit_files apply_each
  apply_replacements resp = edit_files (apply_each t) output_dir req replacements resp

  unfoldable pub apply_paddings : PluginResponse → PluginResponse × Option Error
  unfolding edit_files apply_padding
  apply_paddings resp =
      edit_files (λ p content. ok (apply_padding p content)) output_dir req paddings resp

  -- the arguments are the versions that the environment gives
  abbrev pub chart_content : Result String
  chart_content = t.render "Chart.yaml" t.chart_template (
      ("ChartVersion", t.trim_left (t.getenv "OCULAR_HELM_VERSION") "v")
      ∷ ("AppVersion", t.trim_left (t.getenv "OCULAR_VERSION") "v")
      ∷ [])

  abbrev pub with_chart : Result String → PluginResponse → PluginResponse × Option Error
  with_chart (err e) resp = (resp, some e)
  with_chart (ok chart) resp =
      (record resp { universe = insert (join output_dir chart_path) chart resp.universe }, none)

  abbrev pub after_paddings : PluginResponse × Option Error → PluginResponse × Option Error
  after_paddings (resp, some e) = (resp, some e)
  after_paddings (resp, none) = with_chart chart_content resp

  abbrev pub after_replacements : PluginResponse × Option Error → PluginResponse × Option Error
  after_replacements (resp, some e) = (resp, some e)
  after_replacements (resp, none) = after_paddings (apply_paddings resp)

  unfoldable pub patch_helm_chart : PluginResponse × Option Error
  unfolding apply_replacements apply_paddings
  patch_helm_chart = after_replacements (apply_replacements (no_response req))

abbrev helm_plugin_name : String
helm_plugin_name = "helm.kubebuilder.io/v2-alpha"

-- v, ok := m[key].(map[string]any)
abbrev object_at : {A : Type 0} → Option (Value A) → Option (Dict A)
object_at (some (object m)) = some m
object_at _ = none

abbrev text_at : {A : Type 0} → Option (Value A) → Option String
text_at (some (text s)) = some s
text_at _ = none

-- getOutputDir of main.go
module _ (req : PluginRequest) where
  abbrev known_chart : String → Option String → Result String
  known_chart output_dir none = err (Error.other "did not find chart in universe")
  known_chart output_dir (some chart) = ok output_dir

  abbrev output_of : Option String → Result String
  output_of none = err (Error.other "no output dir found in config")
  output_of (some output_dir) =
      known_chart output_dir (lookup (join output_dir chart_path) req.universe)

  abbrev config_of : Option (Dict (Value (Unit {0}))) → Result String
  config_of none = err (Error.other "unable to read kubebuilder helm config")
  config_of (some config) = output_of (text_at (lookup "output" config))

  abbrev plugins_of : Option (Dict (Value (Value (Unit {0})))) → Result String
  plugins_of none = err (Error.other "unable to list plugins from request")
  plugins_of (some plugins) = config_of (object_at (lookup helm_plugin_name plugins))

  unfoldable pub get_output_dir : Result String
  get_output_dir = plugins_of (object_at (lookup "plugins" req.config))

  abbrev failed : Error → PluginResponse → PluginResponse
  failed e resp = record resp { error = some e }

  abbrev settled : PluginResponse × Option Error → PluginResponse
  settled (resp, none) = resp
  settled (resp, some e) = failed e resp

  abbrev edited_in : Text → Result String → PluginResponse
  edited_in t (err e) = failed e (no_response req)
  edited_in t (ok output_dir) = settled (patch_helm_chart t output_dir req)

  -- the switch of main, with the response that is printed
  unfoldable pub respond : Text → PluginResponse
  unfolding get_output_dir patch_helm_chart
  respond t =
      if req.command =ˢ "init" || req.command =ˢ "flags" || req.command =ˢ "metadata"
      then no_response req
      else if req.command =ˢ "edit"
      then edited_in t get_output_dir
      else failed (Error.other "unknown command") (no_response req)
