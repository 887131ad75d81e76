-- ===== src/World.antt =====
-- What the orchestrator sees and changes while it executes a task. The ports that the sources take
-- as interfaces (agents over HTTP, budget, knowledge, consensus, kanban) answer by an `Environment`;
-- an answer may depend on how many answers came before, which `ticks` counts. A memory line is the
-- template of the source with what it interpolates.
pub mod Keeps
pub mod Returns
pub mod Takes
use jabr.Base.{
  ◌≡◌, refl, ℕ, ◌+◌, String, Bool, Option, none, some, List, [], ◌∷◌, ◌++◌, concat, if◌then◌else◌,
}
use jabr.Agents.{AgentPricing, AgentCard, HandoverRequest}

pub record Call : Type 0 where
  pub url : String
  pub text : String
  pub agent_name : String

pub record ConsensusInput : Type 0 where
  pub agent_name : String
  pub card : AgentCard
  pub response : String

pub record Score : Type 0 where
  pub agent_name : String
  pub score : ℕ
  pub reason : String

pub record ConsensusResult : Type 0 where
  pub winner : ConsensusInput
  pub scores : List Score
  pub synthesized : String

pub record Knowledge : Type 0 where
  pub slug : String
  pub content : String

-- `err` is a throw, with `String(e)`.
pub data Result {ℓ} (A : Type ℓ) : Type ℓ where
  ok : A → Result A
  err : String → Result A

-- the exception monad
abbrev pub bind {ℓ κ} : {A : Type ℓ} {B : Type κ} → Result A → (A → Result B) → Result B
bind (ok a) f = f a
bind (err e) f = err e

pub bind-eq-ok {ℓ κ} :
    {A : Type ℓ} {B : Type κ} (m : Result A) (f : A → Result B) (b : B)
    → bind m f ≡ ok b
    → (a : A) × (m ≡ ok a) × (f a ≡ ok b)
bind-eq-ok (ok a) f b h = (a, refl, h)
bind-eq-ok (err e) f b h = cc

pub data Line : Type 0 where
  augmented : (entries : ℕ) → Line
  acl_denied : (message : String) → Line
  routed : (depth : ℕ) (text label : String) (caller : Option String) → Line
  deducted : (tokens : ℕ) (agent : String) (pricing : AgentPricing) → Line
  deducted_at : (depth tokens : ℕ) (agent : String) (pricing : AgentPricing) → Line
  delegating : (participants : ℕ) → Line
  consensus_winner : (agent : String) (score : Option ℕ) → Line
  contested : (depth : ℕ) (winner : String) (confidence threshold : ℕ) → Line
  circular : (depth : ℕ) (message : String) → Line
  handed_over : (depth : ℕ) (from to reason : String) → Line
  not_resolvable : (depth : ℕ) (target : String) → Line
  chain_completed : (depth length : ℕ) → Line
  max_depth : (depth : ℕ) → Line
  completed_task : (length : ℕ) → Line
  retrying : (attempt : ℕ) (task_id error : String) → Line
  buried : (task_id : String) (retries : ℕ) → Line

pub record Environment : Type 0 where
  pub uuid : ℕ → String
  pub clock : ℕ → ℕ
  pub reply : ℕ → Call → Result String
  pub consume : ℕ → String → ℕ → Result (Unit {0})
  pub query : ℕ → String → Result (List Knowledge)
  pub evaluate : ℕ → List ConsensusInput → String → Result ConsensusResult
  pub create_kanban_task : ℕ → String → String → Result (Unit {0})
  pub parse_handover : String → Option HandoverRequest
  pub append : ℕ → Line → Result (Unit {0})
  pub fixed3 : ℕ → String
  pub show : ℕ → String

pub record TaskInfo : Type 0 where
  pub title : String
  pub assignee : String
  pub priority : ℕ

pub data Event : Type 0 where
  room_created : (task_id agent : String) → Event
  room_progress : (task_id : String) (percent : ℕ) (message : String) → Event
  room_completed : (task_id result : String) → Event
  room_failed : (task_id error : String) → Event
  on_task_start :
      (task_id : String) (info : TaskInfo) (at : ℕ) (parents : Option (List String)) → Event
  on_task_complete :
      (task_id : String) (info : TaskInfo) (started ended : ℕ) (summary : String) → Event
  on_task_failed :
      (task_id : String) (info : TaskInfo) (started ended : ℕ) (error : String) (retryable : Bool)
      (retry_count : ℕ)
      → Event

pub data Metric : Type 0 where
  task_created task_completed : (assignee task_id : String) → Metric
  task_failed : (assignee task_id error : String) → Metric
  cost : (agent task_id : String) (tokens : ℕ) → Metric
  span : (target : String) (text_length : ℕ) (outcome : Result ℕ) → Metric

pub record World (Store : Type 0) : Type 0 where
  pub store : Store
  pub memory : List Line
  pub calls : List Call
  pub consumed : List (String × ℕ)
  pub events : List Event
  pub metrics : List Metric
  pub kanban : List (String × String)
  pub ticks : ℕ

-- A method that may throw; what it changed before a throw stays changed.
abbrev pub Act : Type 0 → Type 0 → Type 0
Act S A = World S → Result A × World S

module _ {S A : Type 0} where
  abbrev pub pure : A → Act S A
  pure a w = (ok a, w)

  -- `throw new Error(message)`, whose text is `Error: message`
  abbrev pub throw : String → Act S A
  throw message w = (err (concat "Error: " message), w)

  abbrev pub throw_text : String → Act S A
  throw_text text w = (err text, w)

  abbrev pub gets : (World S → A) → Act S A
  gets f w = (ok (f w), w)

  -- `try { m } catch (e) { handler(String(e)) }`
  abbrev resume : Result A → (String → Act S A) → Act S A
  resume (ok a) handler w = (ok a, w)
  resume (err e) handler w = handler e w

  unfoldable pub catch : Act S A → (String → Act S A) → Act S A
  catch m handler w = let (r, w') = m w in resume r handler w'

  -- one answer of the environment
  unfoldable pub ask : (ℕ → Result A) → Act S A
  ask answer w = (answer w.ticks, record w { ticks = w.ticks + 1 })

module _ {S A B : Type 0} where
  abbrev pub continue : Result A → (A → Act S B) → Act S B
  continue (ok a) f w = f a w
  continue (err e) f w = (err e, w)

  infixl 10 ◌>>=◌ ◌>>◌
  unfoldable pub ◌>>=◌ : Act S A → (A → Act S B) → Act S B
  ◌>>=◌ m f w = let (r, w') = m w in continue r f w'

  abbrev pub ◌>>◌ : Act S A → Act S B → Act S B
  m >> n = m >>= λ _. n

module _ {S : Type 0} where
  -- `if (condition) m`
  abbrev pub when : Bool → Act S (Unit {0}) → Act S (Unit {0})
  when condition m = if condition then m else pure tt

  abbrev pub write_line : Line → Act S (Unit {0})
  write_line line w = (ok tt, record w { memory = w.memory ++ line ∷ [] })

  -- `this.memory.append(line)`, which throws where the file cannot be written
  unfoldable pub append_memory : Environment → Line → Act S (Unit {0})
  append_memory env line = ask (λ t. env.append t line) >> write_line line

  -- The bus of src/ports/plugin-event-bus.ts catches what its handlers and its middleware throw.
  unfoldable pub emit : Event → Act S (Unit {0})
  emit event w = (ok tt, record w { events = w.events ++ event ∷ [] })

  unfoldable pub record_metric : Metric → Act S (Unit {0})
  record_metric metric w = (ok tt, record w { metrics = w.metrics ++ metric ∷ [] })

  unfoldable pub send : Call → Act S (Unit {0})
  send call w = (ok tt, record w { calls = w.calls ++ call ∷ [] })

  pub note_consumed : String → ℕ → Act S (Unit {0})
  note_consumed agent tokens w = (ok tt, record w { consumed = w.consumed ++ (agent, tokens) ∷ [] })

  pub note_kanban : String → String → Act S (Unit {0})
  note_kanban title body w = (ok tt, record w { kanban = w.kanban ++ (title, body) ∷ [] })

  unfoldable pub set_store : (S → S) → Act S (Unit {0})
  set_store f w = (ok tt, record w { store = f w.store })
