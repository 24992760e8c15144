-- ===== src/Search/Names.antt =====
-- internal/controller/constants.go: the names that the search controller gives to what it creates.
use ocular.Prelude.{String}

abbrev pub search_templates_volume_name : String
search_templates_volume_name = "ocular-search-templates"

abbrev pub search_fifo_volume_name : String
search_fifo_volume_name = "ocular-search-fifos"

abbrev pub pipeline_template_name : String
pipeline_template_name = "pipeline.template.json"

abbrev pub fifo_directory : String
fifo_directory = "/var/run/ocular/fifo"

abbrev pub config_directory : String
config_directory = "/etc/ocular"

abbrev pub pipeline_template_path : String
pipeline_template_path = "/etc/ocular/pipeline.template.json"

abbrev pub scheduler_binary_path : String
scheduler_binary_path = "/var/run/ocular/bin/scheduler"

abbrev pub pipeline_fifo_path : String
pipeline_fifo_path = "/var/run/ocular/fifo/pipelines"

abbrev pub search_fifo_path : String
search_fifo_path = "/var/run/ocular/fifo/searches"

abbrev pub crawler_container_prefix : String
crawler_container_prefix = "crawler-"

abbrev pub scheduler_init_container_name : String
scheduler_init_container_name = "scheduler-init"

abbrev pub search_resource_prefix : String
search_resource_prefix = "search-"
