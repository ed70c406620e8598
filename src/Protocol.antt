-- ===== src/Protocol.antt =====
-- include/cppmcp/protocol.hpp: protocol revisions, and the names of methods and notifications.
use cppmcp.Base.{String, ◌==◌, string_eq, Bool, ◌||◌}

abbrev pub latest_protocol_version : String
latest_protocol_version = "2025-06-18"

abbrev pub version_2025_06_18 : String
version_2025_06_18 = "2025-06-18"

abbrev pub version_2025_03_26 : String
version_2025_03_26 = "2025-03-26"

abbrev pub default_negotiated_version : String
default_negotiated_version = version_2025_06_18

unfoldable pub is_supported_version : String → Bool
is_supported_version v = v == version_2025_06_18 || v == version_2025_03_26

abbrev pub method_initialize : String
method_initialize = "initialize"

abbrev pub method_ping : String
method_ping = "ping"

abbrev pub method_tools_list : String
method_tools_list = "tools/list"

abbrev pub method_tools_call : String
method_tools_call = "tools/call"

abbrev pub method_resources_list : String
method_resources_list = "resources/list"

abbrev pub method_resources_read : String
method_resources_read = "resources/read"

abbrev pub method_resources_subscribe : String
method_resources_subscribe = "resources/subscribe"

abbrev pub method_resources_unsubscribe : String
method_resources_unsubscribe = "resources/unsubscribe"

abbrev pub method_resources_template_list : String
method_resources_template_list = "resources/templates/list"

abbrev pub method_prompts_list : String
method_prompts_list = "prompts/list"

abbrev pub method_prompts_get : String
method_prompts_get = "prompts/get"

abbrev pub method_completion_complete : String
method_completion_complete = "completion/complete"

abbrev pub method_logging_set_level : String
method_logging_set_level = "logging/setLevel"

abbrev pub method_sampling_create : String
method_sampling_create = "sampling/createMessage"

abbrev pub method_elicitation_create : String
method_elicitation_create = "elicitation/create"

abbrev pub method_roots_list : String
method_roots_list = "roots/list"

abbrev pub notif_initialized : String
notif_initialized = "notifications/initialized"

abbrev pub notif_progress : String
notif_progress = "notifications/progress"

abbrev pub notif_message : String
notif_message = "notifications/message"

abbrev pub notif_tools_list_changed : String
notif_tools_list_changed = "notifications/tools/list_changed"

abbrev pub notif_resources_list_changed : String
notif_resources_list_changed = "notifications/resources/list_changed"

abbrev pub notif_resources_updated : String
notif_resources_updated = "notifications/resources/updated"

abbrev pub notif_prompts_list_changed : String
notif_prompts_list_changed = "notifications/prompts/list_changed"

abbrev pub notif_cancelled : String
notif_cancelled = "notifications/cancelled"

abbrev pub notif_roots_list_changed : String
notif_roots_list_changed = "notifications/roots/list_changed"
