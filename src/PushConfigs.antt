-- ===== src/PushConfigs.antt =====
-- The configurations of push notifications that a server keeps for each task: the methods
-- _v1CreatePushConfig to _v1UpdatePushConfig of src/adapters/http/a2a-server.ts. The state is
-- `taskPushNotificationConfigs`; a new id is an argument, and so is the text of a number.
pub mod Effects
pub mod Registry
mod Tests
use jabr.Base.{
  ℕ, ◌-◌, suc, String, Bool, true, false, not, ◌&&◌, Option, none, some, List, [], ◌∷◌, ◌++◌,
  if◌then◌else◌, str_eq, truthy, get_or, Map, lookup, insert, remove, find, filter, take, length,
  leb, ltb, concat,
}
use jabr.Wire.{ℤ, pos, negsuc, Fields, property, as_string}
use jabr.Wire.Push.{
  TaskPushNotificationConfig, ConfigRequest, ListConfigsRequest, ListConfigsResponse,
  to_wire_list_configs_response,
}

abbrev pub PushConfigs : Type 0
PushConfigs = Map (List TaskPushNotificationConfig)

-- `V1CoreOut`, with what the method answers; the code is the negative of `code`.
pub data V1CoreOut (A : Type 0) : Type 0 where
  answer : A → V1CoreOut A
  refusal : (code : ℕ) (message : String) (http_status : Option ℕ) → V1CoreOut A

abbrev pub configs_of : PushConfigs → String → List TaskPushNotificationConfig
configs_of s task_id = get_or (lookup task_id s) []

abbrev pub has_id : String → TaskPushNotificationConfig → Bool
has_id id config = str_eq config.id id

-- `typeof raw[key] === "string" ? raw[key] : undefined`
abbrev pub text_of : String → Fields → Option String
text_of key raw = as_string (property key raw)

abbrev pub not_found : {A : Type 0} → String → V1CoreOut A
not_found id = refusal 32000 (concat "Push notification config not found: " id) (some 404)

unfoldable pub new_config : String → String → String → Fields → TaskPushNotificationConfig
new_config fresh task_id url raw = record {
  id = get_or (truthy (text_of "id" raw)) fresh;
  task_id = task_id;
  url = url;
  token = text_of "token" raw;
  authentication = none;
  tenant = none;
}

unfoldable pub create_with :
    String
    → Fields
    → PushConfigs
    → Option String
    → Option String
    → V1CoreOut TaskPushNotificationConfig × PushConfigs
create_with fresh raw s (some task_id) (some url) =
    let config = new_config fresh task_id url raw in
    (answer config, insert task_id (configs_of s task_id ++ config ∷ []) s)
create_with fresh raw s _ _ = (refusal 32602 "taskId and url are required" (some 400), s)

unfoldable pub create_push_config :
    String → Fields → PushConfigs → V1CoreOut TaskPushNotificationConfig × PushConfigs
create_push_config fresh raw s =
    create_with fresh raw s (truthy (text_of "taskId" raw)) (truthy (text_of "url" raw))

abbrev pub answered :
    String → Option TaskPushNotificationConfig → V1CoreOut TaskPushNotificationConfig
answered id none = not_found id
answered id (some config) = answer config

unfoldable pub get_push_config : ConfigRequest → PushConfigs → V1CoreOut TaskPushNotificationConfig
get_push_config req s = answered req.id (find (has_id req.id) (configs_of s req.task_id))

-- `configs.slice(0, size)`
abbrev pub slice_to : ℤ → List TaskPushNotificationConfig → List TaskPushNotificationConfig
slice_to (pos n) configs = take n configs
slice_to (negsuc n) configs = take (length configs - suc n) configs

-- `configs.length > size`
abbrev pub exceeds : List TaskPushNotificationConfig → ℤ → Bool
exceeds configs (pos n) = ltb n (length configs)
exceeds configs (negsuc n) = true

unfoldable pub config_page :
    (ℤ → String) → Option ℤ → List TaskPushNotificationConfig → ListConfigsResponse
config_page show none configs = record { configs = configs; next_page_token = none }
config_page show (some size) configs = record {
  configs = slice_to size configs;
  next_page_token = if exceeds configs size then some (show size) else none;
}

unfoldable pub list_push_configs : (ℤ → String) → ListConfigsRequest → PushConfigs → Fields
list_push_configs show req s =
    to_wire_list_configs_response (config_page show req.page_size (configs_of s req.task_id))

abbrev pub put_or_delete : String → List TaskPushNotificationConfig → PushConfigs → PushConfigs
put_or_delete task_id [] s = remove task_id s
put_or_delete task_id (config ∷ rest) s = insert task_id (config ∷ rest) s

abbrev pub delete_found :
    ConfigRequest → PushConfigs → Option TaskPushNotificationConfig → V1CoreOut Unit × PushConfigs
delete_found req s none = (not_found req.id, s)
delete_found req s (some target) = (
  answer tt,
  put_or_delete req.task_id (filter (λ c. not (has_id req.id c)) (configs_of s req.task_id)) s,
)

unfoldable pub delete_push_config : ConfigRequest → PushConfigs → V1CoreOut Unit × PushConfigs
delete_push_config req s = delete_found req s (find (has_id req.id) (configs_of s req.task_id))

-- `existing[existing.findIndex(…)] = updated`
unfoldable pub replace_first :
    String
    → TaskPushNotificationConfig
    → List TaskPushNotificationConfig
    → List TaskPushNotificationConfig
replace_first id updated [] = []
replace_first id updated (config ∷ rest) =
    let later = replace_first id updated rest in
    if has_id id config then updated ∷ rest else config ∷ later

-- the target with the url and the token that are given
unfoldable pub changed : Fields → TaskPushNotificationConfig → TaskPushNotificationConfig
changed raw target = record target {
  url = get_or (text_of "url" raw) target.url;
  token = elim (text_of "token" raw) [ none ↦ target.token | some token ↦ some token ];
}

abbrev pub update_found :
    Fields
    → String
    → String
    → PushConfigs
    → Option TaskPushNotificationConfig
    → V1CoreOut TaskPushNotificationConfig × PushConfigs
update_found raw task_id id s none = (not_found id, s)
update_found raw task_id id s (some target) =
    let updated = changed raw target in
    (answer updated, insert task_id (replace_first id updated (configs_of s task_id)) s)

unfoldable pub update_with :
    Fields
    → PushConfigs
    → Option String
    → Option String
    → V1CoreOut TaskPushNotificationConfig × PushConfigs
update_with raw s (some task_id) (some id) =
    update_found raw task_id id s (find (has_id id) (configs_of s task_id))
update_with raw s _ _ = (refusal 32602 "taskId and id are required" (some 400), s)

unfoldable pub update_push_config :
    Fields → PushConfigs → V1CoreOut TaskPushNotificationConfig × PushConfigs
update_push_config raw s =
    update_with raw s (truthy (text_of "taskId" raw)) (truthy (text_of "id" raw))
