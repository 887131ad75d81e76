-- ===== src/PushConfigs/Effects.antt =====
-- What each call on the push configurations is to make of the one under a task and an id, without the
-- table: _v1CreatePushConfig to _v1UpdatePushConfig of src/adapters/http/a2a-server.ts.
use jabr.Base.{
  String, ◌&&◌, Option, none, some, List, [], ◌∷◌, if◌then◌else◌, str_eq, get_or, map_option,
  concat,
}
use jabr.Wire.{Fields, Value, string, property}
use jabr.Wire.Push.{TaskPushNotificationConfig, ConfigRequest}
use jabr.PushConfigs.{V1CoreOut, answer, refusal}

-- the calls that change the registry
pub data Call : Type 0 where
  create : (fresh : String) (raw : Fields) → Call
  update : (raw : Fields) → Call
  delete : ConfigRequest → Call

-- the text under a key, if there is one
abbrev pub given : Value → Option String
given (string t) = some t
given _ = none

-- a text that is there and is not empty
abbrev pub filled : Value → Option String
filled (string t) = if str_eq t "" then none else some t
filled _ = none

-- the configuration that a creation asks for: under its own id, or else the fresh one
abbrev pub id_or : String → Option String → String
id_or fresh none = fresh
id_or fresh (some id) = id

abbrev pub requested : String → String → String → Fields → TaskPushNotificationConfig
requested fresh task_id url raw = record {
  id = id_or fresh (filled (property "id" raw));
  task_id = task_id;
  url = url;
  token = given (property "token" raw);
  authentication = none;
  tenant = none;
}

-- a configuration with the url and the token that are given
abbrev pub with_given :
    (url token : Option String) → TaskPushNotificationConfig → TaskPushNotificationConfig
with_given none none c = c
with_given (some url) none c = record c { url = url }
with_given none (some token) c = record c { token = some token }
with_given (some url) (some token) c = record c { url = url; token = some token }

-- the answer about a configuration
abbrev pub reply : String → Option TaskPushNotificationConfig → V1CoreOut TaskPushNotificationConfig
reply id none = refusal 32000 (concat "Push notification config not found: " id) (some 404)
reply id (some config) = answer config

abbrev pub both : Option String → Option String → Option (String × String)
both (some a) (some b) = some (a, b)
both _ _ = none

-- What a call makes of the one configuration under a task and an id.
abbrev pub created :
    String
    → Fields
    → Option (String × String)
    → String
    → String
    → Option TaskPushNotificationConfig
    → Option TaskPushNotificationConfig
created fresh raw none t i c = c
created fresh raw (some (task_id, url)) t i c =
    let config = requested fresh task_id url raw in
    if str_eq task_id t && str_eq config.id i then some (get_or c config) else c

abbrev pub updated :
    Fields
    → Option (String × String)
    → String
    → String
    → Option TaskPushNotificationConfig
    → Option TaskPushNotificationConfig
updated raw none t i c = c
updated raw (some (task_id, id)) t i c =
    if str_eq task_id t && str_eq id i
    then map_option (with_given (given (property "url" raw)) (given (property "token" raw))) c
    else c

unfoldable pub effect :
    Call → String → String → Option TaskPushNotificationConfig → Option TaskPushNotificationConfig
effect (create fresh raw) t i c =
    created fresh raw (both (filled (property "taskId" raw)) (filled (property "url" raw))) t i c
effect (update raw) t i c =
    updated raw (both (filled (property "taskId" raw)) (filled (property "id" raw))) t i c
effect (delete req) t i c = if str_eq req.task_id t && str_eq req.id i then none else c

unfoldable pub effects :
    List Call
    → String
    → String
    → Option TaskPushNotificationConfig
    → Option TaskPushNotificationConfig
effects [] t i c = c
effects (call ∷ calls) t i c = effects calls t i (effect call t i c)
