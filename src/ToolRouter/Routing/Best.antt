-- ===== src/ToolRouter/Routing/Best.antt =====
-- The match that the routing loop of src/core/tool-router.ts picks.
use mathlib.Core.Path.{subst}
use jabr.Base.{
  ℕ, ◌≤◌, ◌<◌, String, ◌≡◌, refl, ◌⊎◌, inl, inr, Option, none, some, [], ◌∷◌, arith, str_eq, ltb,
  ◌==◌, Map, lookup, HasDistinctKeys, Bool-cases, All, lookup-entries,
}
use jabr.Agents.{AgentConfig}
use jabr.ToolRouter.Routing.{
  Match, task_score, tie_break_score, tie_of, match_of, consider, best_from, best_match, Routed,
  route_or, route_task,
}

module _ (text : String) (agents : Map AgentConfig) where
  abbrev score : AgentConfig → ℕ
  score a = task_score text a.card

  -- A match stands for an entry of the table that scores.
  abbrev IsSound : Option Match → Type 0
  IsSound none = Unit
  IsSound (some m) =
      (a : AgentConfig) × (lookup m.name agents ≡ some a)
      × (m.label ≡ a.card.name)
      × (m.score ≡ score a)
      × (0 < m.score)
      × (tie_of agents m.name ≡ tie_break_score a.card)

  abbrev Beats : Option Match → AgentConfig → Type 0
  Beats none b = score b ≡ 0
  Beats (some m) b =
      (score b < m.score) ⊎ ((score b ≡ m.score) × (tie_break_score b.card ≤ tie_of agents m.name))

  tie_of_entry :
      (name : String) (a : AgentConfig)
      → lookup name agents ≡ some a
      → tie_of agents name ≡ tie_break_score a.card
  unfolding tie_of
  tie_of_entry name a h = ground (arith, h)

  consider-cases :
      (best : Option Match) (name : String) (a : AgentConfig)
      → (consider text agents best name a ≡ best)
        ⊎ ((consider text agents best name a ≡ some (match_of name a (score a))) × (0 < score a))
  consider-cases none name a = elim (Bool-cases (ltb 0 (score a))) [
    | inl e ↦ inr (rw e refl, ground arith)
    | inr e ↦ inl (rw e refl)
  ]
  consider-cases (some m) name a = elim (Bool-cases (ltb 0 (score a))) [
    | inr e ↦ inl (rw e refl)
    | inl e ↦ elim (Bool-cases (ltb m.score (score a))) [
      | inl more ↦ inr (rw e (rw more refl), ground arith)
      | inr less ↦ elim (Bool-cases (score a == m.score)) [
        | inr differs ↦ inl (rw e (rw less (rw differs refl)))
        | inl same ↦ elim (Bool-cases (ltb (tie_of agents m.name) (tie_break_score a.card))) [
          | inl wins ↦ inr (rw e (rw less (rw same (rw wins refl))), ground arith)
          | inr loses ↦ inl (rw e (rw less (rw same (rw loses refl))))
        ]
      ]
    ]
  ]

  consider-IsSound :
      (best : Option Match) (name : String) (a : AgentConfig)
      → lookup name agents ≡ some a
      → IsSound best
      → IsSound (consider text agents best name a)
  consider-IsSound best name a h s = elim (consider-cases best name a) [
    | inl kept ↦ rw kept s
    | inr (new, pos) ↦ rw new (a, h, refl, refl, pos, tie_of_entry name a h)
  ]

  consider-Beats_new :
      (best : Option Match) (name : String) (a : AgentConfig)
      → lookup name agents ≡ some a
      → IsSound best
      → Beats (consider text agents best name a) a
  consider-Beats_new none name a h s = ground (arith, tie_of_entry name a h)
  consider-Beats_new (some m) name a h s =
      let pos : 0 < m.score = s.4 in ground (arith, tie_of_entry name a h)

  consider-Beats :
      (best : Option Match) (name : String) (a b : AgentConfig)
      → lookup name agents ≡ some a
      → Beats best b
      → Beats (consider text agents best name a) b
  consider-Beats none name a b h k = ground (arith, tie_of_entry name a h)
  consider-Beats (some m) name a b h k = ground (arith, tie_of_entry name a h)

  abbrev AreEntries : Map AgentConfig → Type 0
  AreEntries rest = All (λ e. lookup e.0 agents ≡ some e.1) rest

  best_from-IsSound :
      (best : Option Match) (rest : Map AgentConfig)
      → AreEntries rest
      → IsSound best
      → IsSound (best_from text agents best rest)
  unfolding best_from
  best_from-IsSound best [] es s = s
  best_from-IsSound best ((name, a) ∷ rest) es s =
      best_from-IsSound (consider text agents best name a) rest es.1
        (consider-IsSound best name a es.0 s)

  best_from-Beats :
      (best : Option Match) (rest : Map AgentConfig) (b : AgentConfig)
      → AreEntries rest
      → Beats best b
      → Beats (best_from text agents best rest) b
  unfolding best_from
  best_from-Beats best [] b es k = k
  best_from-Beats best ((name, a) ∷ rest) b es k =
      best_from-Beats (consider text agents best name a) rest b es.1
        (consider-Beats best name a b es.0 k)

  best_from-Beats_entry :
      (best : Option Match) (rest : Map AgentConfig) (j : String) (b : AgentConfig)
      → AreEntries rest
      → IsSound best
      → lookup j rest ≡ some b
      → Beats (best_from text agents best rest) b
  unfolding best_from lookup
  best_from-Beats_entry best [] j b es s found = cc
  best_from-Beats_entry best ((name, a) ∷ rest) j b es s found = elim (Bool-cases (str_eq name j)) [
    | inl here ↦
        let same : a ≡ b = ground (arith, here) in
        best_from-Beats (consider text agents best name a) rest b es.1 (
          subst (λ x. Beats (consider text agents best name a) x) same
            (consider-Beats_new best name a es.0 s))
    | inr later ↦
        best_from-Beats_entry (consider text agents best name a) rest j b es.1
          (consider-IsSound best name a es.0 s) (ground (arith, later))
  ]

  -- What `route_task` answers, from the winner of the loop.
  routed :
      (o : Option Match) (b : AgentConfig)
      → IsSound o
      → Beats o b
      → 0 < score b
      → (r : Routed) × (a : AgentConfig) × (route_or agents o ≡ some r)
        × (lookup r.agent_name agents ≡ some a)
        × (r.label ≡ a.card.name)
        × ((score b < score a)
            ⊎ ((score b ≡ score a) × (tie_break_score b.card ≤ tie_break_score a.card)))
  routed none b s k pos = absurd (omega arith)
  routed (some m) b (a, found, label, points, _, tie) k pos =
      (record { agent_name = m.name; label = m.label }, a, refl, found, label, ground arith)

  -- If some agent of the table scores for the text, the task is routed to an agent of the table that
  -- no agent beats: each other scores less, or as much with no better tie-break. The keys of the
  -- table are assumed distinct, as an object's.
  pub route_task_best :
      (j : String) (b : AgentConfig)
      → HasDistinctKeys agents
      → lookup j agents ≡ some b
      → 0 < task_score text b.card
      → (r : Routed) × (a : AgentConfig) × (route_task text agents ≡ some r)
        × (lookup r.agent_name agents ≡ some a)
        × (r.label ≡ a.card.name)
        × ((task_score text b.card < task_score text a.card)
            ⊎ ((task_score text b.card ≡ task_score text a.card)
                × (tie_break_score b.card ≤ tie_break_score a.card)))
  unfolding route_task best_match
  route_task_best j b distinct found pos =
      let entries = lookup-entries agents distinct in
      routed (best_from text agents none agents) b (best_from-IsSound none agents entries tt)
        (best_from-Beats_entry none agents j b entries tt found) pos
