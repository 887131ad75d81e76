-- ===== src/SendMessage/Replies.antt =====
-- What the sender of a message reads, through the wire format, and what the callback is told:
-- _v1RunSendMessage of src/adapters/http/a2a-server.ts with src/adapters/a2a/serialize.ts.
use jabr.Base.{String, Option, none, some, List}
use jabr.Wire.{Fields}
use jabr.Wire.Parts.{text}
use jabr.Wire.Requests.{SendMessageRequest}
use jabr.PushConfigs.{V1CoreOut}
use jabr.SendMessage.{Server, Surroundings, push_mode, sync_mode}

-- the two branches of the call
abbrev by_mode :
    Surroundings → SendMessageRequest → Server → Option String → V1CoreOut Fields × Server
by_mode e q s none = sync_mode e q s
by_mode e q s (some url) = push_mode e q url s
