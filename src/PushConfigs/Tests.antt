-- ===== src/PushConfigs/Tests.antt =====
-- A registry that the theorem is applied to, and the pages of its list.
use jabr.Base.{◌≡◌, refl, String, none, [], ◌∷◌, List, lookup, insert, remove, truthy}
use jabr.Wire.{string, Fields, end, field, find}
use jabr.Wire.Push.{ConfigRequest}
use jabr.PushConfigs.{
  update_push_config, update_with, replace_first, changed, delete_push_config, answer,
  get_push_config, create_push_config, create_with, new_config,
}
use jabr.PushConfigs.Effects.{Call, create, update, delete, effects, reply}
use jabr.PushConfigs.Registry.{run, found, get_push_config-run}

abbrev hook : String → String → Fields
hook id url = field "taskId" (string "t1") (field "id" (string id) (field "url" (string url) end))

abbrev calls : List Call
calls =
    create "n1" (hook "a" "http://one")
    ∷ create "n2" (hook "" "http://two")
    ∷ update (hook "a" "http://three")
    ∷ delete (record { task_id = "t1"; id = "n2" })
    ∷ []

abbrev asked : ConfigRequest
asked = record { task_id = "t1"; id = "a" }

get_push_config-run_example :
    get_push_config asked (run calls [])
    ≡ reply asked.id (effects calls asked.task_id asked.id (found [] asked.task_id asked.id))
get_push_config-run_example = get_push_config-run calls [] asked

-- The url is the one that the update gave.
get_push_config_test :
    get_push_config asked (run calls [])
    ≡ answer (record {
      id = "a";
      task_id = "t1";
      url = "http://three";
      token = none;
      authentication = none;
      tenant = none;
    })
unfolding get_push_config lookup run insert remove create_push_config create_with new_config
    update_push_config update_with replace_first changed delete_push_config find truthy
get_push_config_test = refl
