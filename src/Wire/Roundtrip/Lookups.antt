-- ===== src/Wire/Roundtrip/Lookups.antt =====
-- The round trips of the small requests: src/adapters/a2a/serialize.ts.
use jabr.Base.{◌≡◌, refl}
use jabr.Wire.{object, find, parsed}
use jabr.Wire.Reading.{reading}
use jabr.Wire.Push.{
  ConfigRequest, from_wire_config_request, from_wire_get_config_request,
  from_wire_delete_config_request, to_wire_get_config_request, to_wire_delete_config_request,
  ListConfigsRequest, from_wire_list_configs_request, to_wire_list_configs_request,
}
use jabr.Wire.Requests.{
  GetTaskRequest, from_wire_get_task_request, to_wire_get_task_request, CancelTaskRequest,
  from_wire_cancel_task_request, to_wire_cancel_task_request, SubscribeToTaskRequest,
  from_wire_subscribe_request, to_wire_subscribe_request, GetExtendedAgentCardRequest, tenant_of,
  from_wire_extended_card_request, to_wire_extended_card_request,
}

get_task_trip :
    (r : GetTaskRequest)
    → from_wire_get_task_request (object (to_wire_get_task_request r)) ≡ parsed r
unfolding from_wire_get_task_request to_wire_get_task_request find
get_task_trip r = simp reading

cancel_task_trip :
    (r : CancelTaskRequest)
    → from_wire_cancel_task_request (object (to_wire_cancel_task_request r)) ≡ parsed r
unfolding from_wire_cancel_task_request to_wire_cancel_task_request find
cancel_task_trip r = simp reading

list_configs_trip :
    (r : ListConfigsRequest)
    → from_wire_list_configs_request (object (to_wire_list_configs_request r)) ≡ parsed r
unfolding from_wire_list_configs_request to_wire_list_configs_request find
list_configs_trip r = simp reading

extended_card_trip :
    (r : GetExtendedAgentCardRequest)
    → from_wire_extended_card_request (object (to_wire_extended_card_request r)) ≡ r
unfolding from_wire_extended_card_request tenant_of to_wire_extended_card_request find
extended_card_trip r = simp reading

get_config_trip :
    (r : ConfigRequest)
    → from_wire_get_config_request (object (to_wire_get_config_request r)) ≡ parsed r
unfolding from_wire_get_config_request from_wire_config_request to_wire_get_config_request find
get_config_trip r = refl

delete_config_trip :
    (r : ConfigRequest)
    → from_wire_delete_config_request (object (to_wire_delete_config_request r)) ≡ parsed r
unfolding from_wire_delete_config_request from_wire_config_request to_wire_delete_config_request
    find
delete_config_trip r = refl

subscribe_trip :
    (r : SubscribeToTaskRequest)
    → from_wire_subscribe_request (object (to_wire_subscribe_request r)) ≡ parsed r
unfolding from_wire_subscribe_request to_wire_subscribe_request find
subscribe_trip r = refl

-- The requests to get, cancel and follow a task, for the extended agent card, and to get, delete
-- and list the configurations of push notifications are read back as they were written.
lookups_roundtrip :
    (get : GetTaskRequest) (cancel : CancelTaskRequest) (follow : SubscribeToTaskRequest)
    (card : GetExtendedAgentCardRequest) (config : ConfigRequest) (configs : ListConfigsRequest)
    → (from_wire_get_task_request (object (to_wire_get_task_request get)) ≡ parsed get)
      × (from_wire_cancel_task_request (object (to_wire_cancel_task_request cancel))
          ≡ parsed cancel)
      × (from_wire_subscribe_request (object (to_wire_subscribe_request follow)) ≡ parsed follow)
      × (from_wire_extended_card_request (object (to_wire_extended_card_request card)) ≡ card)
      × (from_wire_get_config_request (object (to_wire_get_config_request config)) ≡ parsed config)
      × (from_wire_delete_config_request (object (to_wire_delete_config_request config))
          ≡ parsed config)
      × (from_wire_list_configs_request (object (to_wire_list_configs_request configs))
          ≡ parsed configs)
lookups_roundtrip get cancel follow card config configs = (
  get_task_trip get,
  cancel_task_trip cancel,
  subscribe_trip follow,
  extended_card_trip card,
  get_config_trip config,
  delete_config_trip config,
  list_configs_trip configs,
)
