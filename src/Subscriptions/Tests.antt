-- ===== src/Subscriptions/Tests.antt =====
-- Subscriptions to two resources, one of them ended.
use jabr.Base.{◌≡◌, refl, List, [], ◌∷◌, length, ltb}
use jabr.Subscriptions.{empty, get_subscriber_ids, has_subscribers, size, unsubscribe}
use jabr.Subscriptions.Table.{
  Op, subscribe_op, unsubscribe_op, run, replay, ids, is_known, run_refines,
}

abbrev calls : List Op
calls =
    subscribe_op "file:a" "s1" 1
    ∷ subscribe_op "file:b" "s2" 2
    ∷ subscribe_op "file:a" "s3" 3
    ∷ unsubscribe_op "s1"
    ∷ []

run_refines_example :
    (get_subscriber_ids (run empty calls) "file:a" ≡ ids (replay [] calls) "file:a")
    × (has_subscribers (run empty calls) "file:a" ≡ ltb 0 (length (ids (replay [] calls) "file:a")))
    × (size (run empty calls) ≡ length (replay [] calls))
    × ((unsubscribe (run empty calls) "s3").1 ≡ is_known "s3" (replay [] calls))
run_refines_example = run_refines calls "file:a" "s3" (refl, (refl, (refl, tt)))
