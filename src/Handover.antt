-- ===== src/Handover.antt =====
-- Handovers from agent to agent: the marker of src/types/types.ts, which an agent's answer carries,
-- and the chain of src/security/handover-chain.ts. `JSON.parse` is the environment's.
use jabr.Base.{
  String, Bool, Option, none, some, List, [], ◌∷◌, ◌++◌, includes, concat, join, from_first,
  skip_chars, trim, strip_from,
}
use jabr.Agents.{HandoverRequest}

abbrev pub handover_marker : String
handover_marker = "%%HANDOVER%%"

abbrev pub parsed : (String → Option HandoverRequest) → Option String → Option HandoverRequest
parsed parse none = none
parsed parse (some rest) = parse (skip_chars 12 rest)

pub decode_handover : (String → Option HandoverRequest) → String → Option HandoverRequest
unfolding skip_chars from_first
decode_handover parse text = parsed parse (from_first handover_marker text)

-- `text.replace(/%%HANDOVER%%.*$/, "").trim()`
unfoldable pub strip_handover : String → String
unfolding strip_from trim
strip_handover text = trim (strip_from handover_marker text)

unfoldable pub would_create_cycle : List String → String → Bool
would_create_cycle chain next = includes chain next

unfoldable pub extend_chain : List String → String → List String
extend_chain current_chain agent_name = current_chain ++ agent_name ∷ []

pub format_chain : List String → String
unfolding join
format_chain chain = join " → " chain

-- the message of the error
unfoldable pub circular_handoff : List String → String → String
unfolding format_chain
circular_handoff chain next_agent = concat "Circular handoff detected: " (
    concat (format_chain (chain ++ next_agent ∷ [])) (
      concat ". Rejecting handover to prevent infinite loop. " (
        concat "The task has been failed. "
          "Please rephrase the task or route to a different agent.")))
