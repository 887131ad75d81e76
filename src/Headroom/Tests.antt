-- ===== src/Headroom/Tests.antt =====
-- One agent under two spellings of its name, with a cap from the environment.
use jabr.Base.{◌-◌, ◌≡◌, List, [], ◌∷◌, ◌==◌, to_lower_case, lookup, map_option}
use jabr.Headroom.{HeadroomAdapter, used_of, cap_of, remaining, is_exhausted, get_usage}
use jabr.Headroom.Accounting.{Op, consume_op, reset_op, run, spent, spent_entry, run_accounts}

abbrev s : HeadroomAdapter
s = record { counters = []; caps = ("oracle", 10) ∷ [] }

abbrev ops : List Op
ops = consume_op "oracle" 5 ∷ reset_op ∷ consume_op "Oracle" 4 ∷ consume_op "oracle" 3 ∷ []

run_accounts_example :
    (remaining (run s ops) "ORACLE"
      ≡ cap_of s (to_lower_case "ORACLE")
        - spent (used_of s (to_lower_case "ORACLE")) (to_lower_case "ORACLE") ops)
    × (is_exhausted (run s ops) "ORACLE" ≡ (remaining (run s ops) "ORACLE" == 0))
    × (lookup (to_lower_case "ORACLE") (get_usage (run s ops))
        ≡ map_option
            (λ u. record { used = u; cap = cap_of s (to_lower_case "ORACLE") })
            (spent_entry (lookup (to_lower_case "ORACLE") s.counters) (to_lower_case "ORACLE") ops))
run_accounts_example = run_accounts s ops "ORACLE"
