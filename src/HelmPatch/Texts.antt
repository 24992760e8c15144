-- ===== src/HelmPatch/Texts.antt =====
-- hack/kubebuilder-helm-patch/patch.go: the texts that are edited in the files of a generated chart.
use ocular.Prelude.{String, List, [], ◌∷◌}
use ocular.Prelude.Dict.{Dict}

abbrev pub chart_path : String
chart_path = "chart/Chart.yaml"

abbrev pub manager_path : String
manager_path = "chart/templates/manager/manager.yaml"

abbrev pub configmap_path : String
configmap_path = "chart/templates/extras/controller-manager-config.yaml"

-- `pattern` is the source of the regular expression
pub record Replacement : Type 0 where
  pub pattern : String
  pub replacement : String

pub record TextPadding : Type 0 where
  pub prefix : String
  pub suffix : String

abbrev manager_replacements : List Replacement
manager_replacements =
    record {
      pattern = "(?m)^([ ]+)labels:";
      replacement =
          "${1}labels:\n${1}  {{- range $$key, $$val := .Values.manager.labels }}\n${1}  {{ $$key }}: {{ $$val | quote }}\n${1}  {{- end}}";
    }
    ∷ record {
      pattern = "(?m)^([ ]+)annotations:";
      replacement =
          "${1}annotations:\n${1}  {{- range $$key, $$val := .Values.manager.annotations }}\n${1}  {{ $$key }}: {{ $$val | quote }}\n${1}  {{- end}}";
    }
    ∷ record {
      pattern = "(?m)^([ ]+)env: \\[\\]";
      replacement =
          "${1}env:\n${1}  {{- if .Values.manager.env }}\n${1}  {{- toYaml .Values.manager.env | nindent 8 }}\n${1}  {{- else}}\n${1}  []\n${1}  {{- end}}";
    }
    ∷ record {
      pattern = "(?m)^([ ]+)volumeMounts:";
      replacement =
          "${1}volumeMounts:\n${1}  {{- if .Values.manager.volumeMounts }}\n${1}  {{- toYaml .Values.manager.volumeMounts | nindent 8}}\n${1}  {{- end}}";
    }
    ∷ record {
      pattern = "(?m)^([ ]+)volumes:";
      replacement =
          "${1}volumes:\n${1}  {{- if .Values.manager.volumes }}\n${1}  {{- toYaml .Values.manager.volumes | nindent 6}}\n${1}  {{- end}}";
    }
    ∷ record { pattern = "\\.Values"; replacement = "$$values" }
    ∷ []

abbrev configmap_replacements : List Replacement
configmap_replacements =
    record {
      pattern = "(?m)^([ ]+)OCULAR_SIDECAR_IMG:.*$";
      replacement =
          "${1}OCULAR_SIDECAR_IMG: {{ .Values.sidecar.image.repository }}:{{ .Values.sidecar.image.tag }}";
    }
    ∷ record {
      pattern = "(?m)^([ ]+)OCULAR_SIDECAR_PULLPOLICY:.*$";
      replacement = "${1}OCULAR_SIDECAR_PULLPOLICY: {{ .Values.sidecar.image.pullPolicy }}";
    }
    ∷ record {
      pattern = "(?m)^([ ]+)OCULAR_SCHEDULER_IMG:.*$";
      replacement =
          "${1}OCULAR_SCHEDULER_IMG: {{ .Values.scheduler.image.repository }}:{{ .Values.scheduler.image.tag }}";
    }
    ∷ record {
      pattern = "(?m)^([ ]+)OCULAR_SCHEDULER_PULLPOLICY:.*$";
      replacement = "${1}OCULAR_SCHEDULER_PULLPOLICY: {{ .Values.scheduler.image.pullPolicy }}";
    }
    ∷ record { pattern = "\\.Values"; replacement = "$$values" }
    ∷ []

abbrev pub replacements : Dict (List Replacement)
replacements = (manager_path, manager_replacements) ∷ (configmap_path, configmap_replacements) ∷ []

abbrev pub padding : TextPadding
padding = record {
  prefix =
      "\n{{- $values := (tpl (.Values | toYaml) $) | fromYaml }}\n{{- $values := (tpl ($values | toYaml) $) | fromYaml }}\n---\n";
  suffix = "";
}

abbrev pub paddings : Dict TextPadding
paddings = (manager_path, padding) ∷ (configmap_path, padding) ∷ []
