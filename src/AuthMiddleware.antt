-- ===== src/AuthMiddleware.antt =====
-- The scopes that a method asks for: src/security/auth-middleware.ts, with the method names of
-- src/constants/a2a-v1.ts.
use jabr.Base.{String, List, [], ◌∷◌, Map, lookup, get_or}

abbrev pub method_scopes : Map (List String)
method_scopes =
    ("SendMessage", "a2a:write" ∷ [])
    ∷ ("SendStreamingMessage", "a2a:stream" ∷ "a2a:write" ∷ [])
    ∷ ("GetTask", "a2a:read" ∷ [])
    ∷ ("ListTasks", "a2a:read" ∷ [])
    ∷ ("CancelTask", "a2a:admin" ∷ [])
    ∷ ("SubscribeToTask", "a2a:stream" ∷ "a2a:read" ∷ [])
    ∷ ("GetExtendedAgentCard", "a2a:read" ∷ [])
    ∷ ("CreateTaskPushNotificationConfig", "a2a:admin" ∷ [])
    ∷ ("GetTaskPushNotificationConfig", "a2a:read" ∷ [])
    ∷ ("ListTaskPushNotificationConfigs", "a2a:read" ∷ [])
    ∷ ("DeleteTaskPushNotificationConfig", "a2a:admin" ∷ [])
    ∷ []

unfoldable pub scopes_for_method : String → List String
unfolding lookup
scopes_for_method method = get_or (lookup method method_scopes) ("a2a:read" ∷ [])
