-- ===== src/PushConfigs/Registry.antt =====
-- What the calls about a task and an id leave, whatever else is called in between: the methods on
-- push configurations of src/adapters/http/a2a-server.ts.
use jabr.Base.{
  ◌≡◌, refl, ◌∙◌, String, not, ◌&&◌, Option, none, some, List, [], ◌∷◌, ◌++◌, if◌then◌else◌, str_eq,
  truthy, get_or, map_option, insert, find, filter, lookup-insert, lookup-remove, Bool-cases, inl,
  inr, eq_iff, arith,
}
use jabr.Wire.{Fields, Value, property, as_string}
use jabr.Wire.Push.{TaskPushNotificationConfig, ConfigRequest}
use jabr.PushConfigs.{
  PushConfigs, configs_of, has_id, text_of, new_config, create_with, create_push_config,
  get_push_config, delete_found, put_or_delete, delete_push_config, replace_first, changed,
  update_found, update_with, update_push_config,
}
use jabr.PushConfigs.Effects.{
  Call, create, update, delete, given, filled, requested, with_given, reply, both, created, updated,
  effect, effects,
}

abbrev pub step : Call → PushConfigs → PushConfigs
step (create fresh raw) s = (create_push_config fresh raw s).1
step (update raw) s = (update_push_config raw s).1
step (delete req) s = (delete_push_config req s).1

unfoldable pub run : List Call → PushConfigs → PushConfigs
run [] s = s
run (call ∷ calls) s = run calls (step call s)

-- the configuration that is found for a task and an id
abbrev pub found : PushConfigs → String → String → Option TaskPushNotificationConfig
found s task_id id = find (has_id id) (configs_of s task_id)

filled-truthy : (v : Value) → filled v ≡ truthy (as_string v)
unfolding truthy
filled-truthy v = ground arith

requested-new_config :
    (fresh task_id url : String) (raw : Fields)
    → requested fresh task_id url raw ≡ new_config fresh task_id url raw
unfolding new_config truthy
requested-new_config fresh task_id url raw = ground arith

with_given-changed :
    (raw : Fields) (target : TaskPushNotificationConfig)
    → changed raw target
      ≡ with_given (given (property "url" raw)) (given (property "token" raw)) target
unfolding changed
with_given-changed raw target = ground arith

find-append :
    (i : String) (configs : List TaskPushNotificationConfig) (config : TaskPushNotificationConfig)
    → find (has_id i) (configs ++ config ∷ []) ≡ (
        if str_eq config.id i
        then some (get_or (find (has_id i) configs) config)
        else find (has_id i) configs)
find-append i [] config = ground arith
find-append i (first ∷ rest) config = ground (arith, find-append i rest config)

find-filter :
    (gone i : String) (configs : List TaskPushNotificationConfig)
    → find (has_id i) (filter (λ c. not (has_id gone c)) configs)
      ≡ (if str_eq gone i then none else find (has_id i) configs)
find-filter gone i [] = ground arith
find-filter gone i (first ∷ rest) =
    ground (arith, find-filter gone i rest, eq_iff gone i, eq_iff first.id gone, eq_iff first.id i)

find-replace_first :
    (id i : String) (new old : TaskPushNotificationConfig)
    (configs : List TaskPushNotificationConfig)
    → new.id ≡ id
    → find (has_id id) configs ≡ some old
    → find (has_id i) (replace_first id new configs)
      ≡ (if str_eq id i then some new else find (has_id i) configs)
unfolding replace_first
find-replace_first id i new old [] e h = ground (arith, h)
find-replace_first id i new old (first ∷ rest) e h = elim (Bool-cases (str_eq first.id id)) [
  | inl same ↦
      ground (arith, same, e, eq_iff id i, eq_iff first.id id, eq_iff first.id i, eq_iff new.id i)
  | inr other ↦
      let tail : find (has_id id) rest ≡ some old = ground (arith, h, other) in
      ground (
        arith,
        other,
        find-replace_first id i new old rest e tail,
        eq_iff id i,
        eq_iff first.id id,
        eq_iff first.id i,
      )
]

found-insert :
    (s : PushConfigs) (task_id t i : String) (configs : List TaskPushNotificationConfig)
    → found (insert task_id configs s) t i
      ≡ (if str_eq task_id t then find (has_id i) configs else found s t i)
found-insert s task_id t i configs = rw (lookup-insert task_id t configs s) (ground arith)

found-put_or_delete :
    (s : PushConfigs) (task_id t i : String) (configs : List TaskPushNotificationConfig)
    → found (put_or_delete task_id configs s) t i
      ≡ (if str_eq task_id t then find (has_id i) configs else found s t i)
found-put_or_delete s task_id t i [] = rw (lookup-remove task_id t s) (ground arith)
found-put_or_delete s task_id t i (config ∷ rest) = found-insert s task_id t i (config ∷ rest)

found-create_with :
    (fresh : String) (raw : Fields) (s : PushConfigs) (task_id url : Option String) (t i : String)
    → found ((create_with fresh raw s task_id url).1) t i
      ≡ created fresh raw (both task_id url) t i (found s t i)
unfolding create_with
found-create_with fresh raw s none url t i = refl
found-create_with fresh raw s (some task_id) none t i = refl
found-create_with fresh raw s (some task_id) (some url) t i =
    let config = new_config fresh task_id url raw in
    ground (
      arith,
      requested-new_config fresh task_id url raw,
      found-insert s task_id t i (configs_of s task_id ++ config ∷ []),
      find-append i (configs_of s task_id) config,
      eq_iff task_id t,
    )

found-delete_found :
    (req : ConfigRequest) (s : PushConfigs) (target : Option TaskPushNotificationConfig)
    (t i : String)
    → found s req.task_id req.id ≡ target
    → found ((delete_found req s target).1) t i
      ≡ (if str_eq req.task_id t && str_eq req.id i then none else found s t i)
found-delete_found req s none t i h = ground (arith, h, eq_iff req.task_id t, eq_iff req.id i)
found-delete_found req s (some target) t i h = ground (
  arith,
  found-put_or_delete s req.task_id t i
      (filter (λ c. not (has_id req.id c)) (configs_of s req.task_id)),
  find-filter req.id i (configs_of s req.task_id),
  eq_iff req.task_id t,
)

changed_id :
    (raw : Fields) (target : TaskPushNotificationConfig) → (changed raw target).id ≡ target.id
unfolding changed
changed_id raw target = refl

find_id :
    (id : String) (configs : List TaskPushNotificationConfig) (target : TaskPushNotificationConfig)
    → find (has_id id) configs ≡ some target
    → target.id ≡ id
find_id id [] target h = ground (arith, h)
find_id id (first ∷ rest) target h = ground (arith, h, find_id id rest target, eq_iff first.id id)

found-update_found :
    (raw : Fields) (task_id id : String) (s : PushConfigs)
    (target : Option TaskPushNotificationConfig) (t i : String)
    → found s task_id id ≡ target
    → found ((update_found raw task_id id s target).1) t i ≡ (
        if str_eq task_id t && str_eq id i
        then map_option
            (with_given (given (property "url" raw)) (given (property "token" raw)))
            (found s t i)
        else found s t i)
found-update_found raw task_id id s none t i h = ground (arith, h, eq_iff task_id t, eq_iff id i)
found-update_found raw task_id id s (some target) t i h =
    let configs = configs_of s task_id in
    let own = changed_id raw target ∙ find_id id configs target h in
    ground (
      arith,
      h,
      with_given-changed raw target,
      found-insert s task_id t i (replace_first id (changed raw target) configs),
      find-replace_first id i (changed raw target) target configs own h,
      eq_iff task_id t,
      eq_iff id i,
    )

found-update_with :
    (raw : Fields) (s : PushConfigs) (task_id id : Option String) (t i : String)
    → found ((update_with raw s task_id id).1) t i ≡ updated raw (both task_id id) t i (found s t i)
unfolding update_with
found-update_with raw s none id t i = refl
found-update_with raw s (some task_id) none t i = refl
found-update_with raw s (some task_id) (some id) t i =
    found-update_found raw task_id id s (found s task_id id) t i refl

found-step :
    (call : Call) (s : PushConfigs) (t i : String)
    → found (step call s) t i ≡ effect call t i (found s t i)
unfolding effect create_push_config update_push_config delete_push_config
found-step (create fresh raw) s t i =
    rw (filled-truthy (property "taskId" raw), filled-truthy (property "url" raw))
      (found-create_with fresh raw s (truthy (text_of "taskId" raw)) (truthy (text_of "url" raw)) t
        i)
found-step (update raw) s t i =
    rw (filled-truthy (property "taskId" raw), filled-truthy (property "id" raw))
      (found-update_with raw s (truthy (text_of "taskId" raw)) (truthy (text_of "id" raw)) t i)
found-step (delete req) s t i = found-delete_found req s (found s req.task_id req.id) t i refl

found-run :
    (calls : List Call) (s : PushConfigs) (t i : String)
    → found (run calls s) t i ≡ effects calls t i (found s t i)
unfolding run effects
found-run [] s t i = refl
found-run (call ∷ calls) s t i = rw (← found-step call s t i) (found-run calls (step call s) t i)

-- After any calls, asking for the configuration of a task by an id answers what the calls that name
-- this task and this id have left of it: a creation is kept if there is none yet, an update sets the
-- url and the token that it gives, and a deletion leaves none, which is refused as not found.
pub get_push_config-run :
    (calls : List Call) (s : PushConfigs) (req : ConfigRequest)
    → get_push_config req (run calls s)
      ≡ reply req.id (effects calls req.task_id req.id (found s req.task_id req.id))
unfolding get_push_config
get_push_config-run calls s req = rw (found-run calls s req.task_id req.id) (ground arith)
