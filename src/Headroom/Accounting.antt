-- ===== src/Headroom/Accounting.antt =====
-- What an agent has left: src/adapters/headroom/headroom.ts.
use jabr.Base.{
  ℕ, zero, suc, Option, none, some, get_or, ◌+◌, ◌-◌, String, ◌≡◌, refl, List, [], ◌∷◌, ◌==◌,
  if◌then◌else◌, arith, str_eq, to_lower_case, Map, lookup, lookup-insert, eq_iff, ap, ◌∙◌,
  map_option,
}
use jabr.Headroom.{
  default_cap, HeadroomAdapter, or_number, used_of, cap_of, consume, remaining, is_exhausted, reset,
  usage_from, get_usage,
}

pub data Op : Type 0 where
  consume_op : (agent_name : String) (approximate_tokens : ℕ) → Op
  reset_op : Op

pub apply : HeadroomAdapter → Op → HeadroomAdapter
apply s (consume_op agent_name tokens) = consume s agent_name tokens
apply s reset_op = reset s

pub run : HeadroomAdapter → List Op → HeadroomAdapter
run s [] = s
run s (op ∷ ops) = run (apply s op) ops

-- what the calls spend for a name in lower case, after `before`
abbrev pub spent : ℕ → String → List Op → ℕ
spent before name [] = before
spent before name (consume_op agent_name tokens ∷ ops) =
    spent (if str_eq (to_lower_case agent_name) name then before + tokens else before) name ops
spent before name (reset_op ∷ ops) = spent 0 name ops

consume-used_of :
    (s : HeadroomAdapter) (agent_name name : String) (tokens : ℕ)
    → used_of (consume s agent_name tokens) name
      ≡ (if str_eq (to_lower_case agent_name) name then used_of s name + tokens else used_of s name)
unfolding consume
consume-used_of s agent_name name tokens = ground (
  arith,
  lookup-insert (to_lower_case agent_name) name (used_of s (to_lower_case agent_name) + tokens)
      s.counters,
  eq_iff (to_lower_case agent_name) name,
)

reset-used_of : (s : HeadroomAdapter) (name : String) → used_of (reset s) name ≡ 0
unfolding reset lookup
reset-used_of s name = refl

apply-caps : (s : HeadroomAdapter) (op : Op) → (apply s op).caps ≡ s.caps
unfolding apply consume reset
apply-caps s (consume_op agent_name tokens) = refl
apply-caps s reset_op = refl

run-caps : (s : HeadroomAdapter) (ops : List Op) → (run s ops).caps ≡ s.caps
unfolding run
run-caps s [] = refl
run-caps s (op ∷ ops) = run-caps (apply s op) ops ∙ apply-caps s op

run-used_of :
    (name : String) (ops : List Op) (s : HeadroomAdapter)
    → used_of (run s ops) name ≡ spent (used_of s name) name ops
unfolding run apply
run-used_of name [] s = refl
run-used_of name (consume_op agent_name tokens ∷ ops) s =
    run-used_of name ops (consume s agent_name tokens)
    ∙ ap (λ n. spent n name ops) (consume-used_of s agent_name name tokens)
run-used_of name (reset_op ∷ ops) s =
    run-used_of name ops (reset s) ∙ ap (λ n. spent n name ops) (reset-used_of s name)

lookup-usage_from :
    (s : HeadroomAdapter) (name : String) (m : Map ℕ)
    → lookup name (usage_from s m)
      ≡ map_option (λ u. record { used = u; cap = cap_of s name }) (lookup name m)
unfolding usage_from lookup
lookup-usage_from s name [] = refl
lookup-usage_from s name ((other, used) ∷ m) =
    ground (arith, lookup-usage_from s name m, eq_iff other name)

-- what the usage has under a name in lower case after the calls: nothing since a reset, and a
-- spent sum once something was spent
abbrev pub spent_entry : Option ℕ → String → List Op → Option ℕ
spent_entry before name [] = before
spent_entry before name (consume_op agent_name tokens ∷ ops) =
    spent_entry
      (if str_eq (to_lower_case agent_name) name then some (get_or before 0 + tokens) else before)
      name ops
spent_entry before name (reset_op ∷ ops) = spent_entry none name ops

or_number-zero : (o : Option ℕ) → or_number o 0 ≡ get_or o 0
or_number-zero none = refl
or_number-zero (some zero) = refl
or_number-zero (some (suc n)) = refl

consume-lookup :
    (s : HeadroomAdapter) (agent_name name : String) (tokens : ℕ)
    → lookup name (consume s agent_name tokens).counters ≡ (
        if str_eq (to_lower_case agent_name) name
        then some (get_or (lookup name s.counters) 0 + tokens)
        else lookup name s.counters)
unfolding consume
consume-lookup s agent_name name tokens = ground (
  arith,
  lookup-insert (to_lower_case agent_name) name (used_of s (to_lower_case agent_name) + tokens)
      s.counters,
  eq_iff (to_lower_case agent_name) name,
  or_number-zero (lookup name s.counters),
)

run-lookup :
    (name : String) (ops : List Op) (s : HeadroomAdapter)
    → lookup name (run s ops).counters ≡ spent_entry (lookup name s.counters) name ops
unfolding run apply reset lookup
run-lookup name [] s = refl
run-lookup name (consume_op agent_name tokens ∷ ops) s =
    run-lookup name ops (consume s agent_name tokens)
    ∙ ap (λ o. spent_entry o name ops) (consume-lookup s agent_name name tokens)
run-lookup name (reset_op ∷ ops) s = run-lookup name ops (reset s)

-- After any calls an agent has left its cap without what the calls since the last reset have spent under
-- its name in any case, and nothing if that is more. It is exhausted exactly when nothing is left, and
-- the report of the usage has the sum that the calls since the last reset have spent, with the cap, if
-- there was one.
pub run_accounts :
    (s : HeadroomAdapter) (ops : List Op) (agent_name : String)
    → (remaining (run s ops) agent_name
        ≡ cap_of s (to_lower_case agent_name)
          - spent (used_of s (to_lower_case agent_name)) (to_lower_case agent_name) ops)
      × (is_exhausted (run s ops) agent_name ≡ (remaining (run s ops) agent_name == 0))
      × (lookup (to_lower_case agent_name) (get_usage (run s ops))
          ≡ map_option
              (λ u. record { used = u; cap = cap_of s (to_lower_case agent_name) })
              (spent_entry
                (lookup (to_lower_case agent_name) s.counters)
                (to_lower_case agent_name)
                ops))
unfolding remaining is_exhausted get_usage
run_accounts s ops agent_name =
    let name = to_lower_case agent_name in
    let s' = run s ops in
    let caps : cap_of s' name ≡ cap_of s name =
      ap (λ m. or_number (lookup name m) default_cap) (run-caps s ops) in
    let used = run-used_of name ops s in
    (
      ground (arith, caps, used),
      ground (arith),
      lookup-usage_from s' name s'.counters
          ∙ ap (λ n. map_option (λ u. record { used = u; cap = n }) (lookup name s'.counters)) caps
          ∙ ap (map_option (λ u. record { used = u; cap = cap_of s name })) (run-lookup name ops s),
    )
