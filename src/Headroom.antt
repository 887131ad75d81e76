-- ===== src/Headroom.antt =====
-- The budgets of the agents: src/adapters/headroom/headroom.ts. The caps are those that the constructor
-- reads from the environment, under names in lower case; `parseInt` is an argument. A percentage is
-- left to its two numbers.
pub mod Accounting
mod Tests
use jabr.Base.{
  ℕ, zero, suc, ◌+◌, ◌-◌, String, Bool, true, false, Option, none, some, List, [], ◌∷◌, leb, max,
  if◌then◌else◌, to_lower_case, starts_with, skip_chars, Map, lookup, insert, map_values, get_or,
}

pub record HeadroomAdapter : Type 0 where
  pub counters : Map ℕ
  pub caps : Map ℕ

abbrev pub default_cap : ℕ
default_cap = 100000

-- `n || d`, where the number may be missing
abbrev pub or_number : Option ℕ → ℕ → ℕ
or_number none d = d
or_number (some zero) d = d
or_number (some (suc n)) d = suc n

-- `none` of `parse_int` is not a number
unfoldable pub load_caps : (String → Option ℕ) → Map ℕ → Map String → Map ℕ
unfolding to_lower_case skip_chars insert
load_caps parse_int caps [] = caps
load_caps parse_int caps ((key, value) ∷ env) =
    load_caps parse_int
      (if starts_with key "JABR_TOKEN_CAP_"
        then insert (to_lower_case (skip_chars 15 key)) (or_number (parse_int value) default_cap)
            caps
        else caps)
      env

pub new_adapter : (String → Option ℕ) → Map String → HeadroomAdapter
unfolding load_caps
new_adapter parse_int env = record { counters = []; caps = load_caps parse_int [] env }

abbrev pub used_of : HeadroomAdapter → String → ℕ
used_of s name = or_number (lookup name s.counters) 0

abbrev pub cap_of : HeadroomAdapter → String → ℕ
cap_of s name = or_number (lookup name s.caps) default_cap

pub consume : HeadroomAdapter → String → ℕ → HeadroomAdapter
unfolding to_lower_case insert
consume s agent_name approximate_tokens =
    let name = to_lower_case agent_name in
    record s { counters = insert name (used_of s name + approximate_tokens) s.counters }

pub remaining : HeadroomAdapter → String → ℕ
unfolding to_lower_case
remaining s agent_name =
    let name = to_lower_case agent_name in max 0 (cap_of s name - used_of s name)

pub is_exhausted : HeadroomAdapter → String → Bool
unfolding to_lower_case
is_exhausted s agent_name =
    let name = to_lower_case agent_name in leb (cap_of s name) (used_of s name)

pub reset : HeadroomAdapter → HeadroomAdapter
reset s = record s { counters = [] }

pub record BudgetUsage : Type 0 where
  pub used : ℕ
  pub cap : ℕ

usage_from : HeadroomAdapter → Map ℕ → Map BudgetUsage
usage_from s [] = []
usage_from s ((name, used) ∷ counters) =
    (name, record { used = used; cap = cap_of s name }) ∷ usage_from s counters

pub get_usage : HeadroomAdapter → Map BudgetUsage
unfolding usage_from
get_usage s = usage_from s s.counters
