-- ===== src/World/Returns.antt =====
-- Actions that never throw: one rule for each way to build an action.
use jabr.Base.{ℕ, ◌≡◌, refl, Bool, true, false, String, if◌then◌else◌, arith}
use jabr.World.{
  World, Act, Result, ok, err, Environment, Line, Event, Metric, pure, gets, catch, ask, ◌>>=◌,
  append_memory, emit, record_metric, set_store,
}

pub record Returns {S A : Type 0} (m : Act S A) : Type 0 where
  pub at : (w : World S) → (a : A) × ((m w).0 ≡ ok a)

module _ {S A : Type 0} where
  pub Returns-pure : (a : A) → Returns {S = S} (pure a)
  Returns-pure a = record { at = λ w. (a, refl) }

  pub Returns-gets : (f : World S → A) → Returns (gets f)
  Returns-gets f = record { at = λ w. (f w, refl) }

  pub Returns-ask : (answer : ℕ → A) → Returns {S = S} (ask (λ t. ok (answer t)))
  unfolding ask
  Returns-ask answer = record { at = λ w. (answer w.ticks, refl) }

  pub Returns-if : (b : Bool) (m n : Act S A) → Returns m → Returns n → Returns (if b then m else n)
  Returns-if true m n rm rn = rm
  Returns-if false m n rm rn = rn

  caught :
      (r : Result A) (w : World S) (handler : String → Act S A)
      → ((e : String) → Returns (handler e))
      → (a : A) × ((catch (λ v. (r, v)) handler w).0 ≡ ok a)
  unfolding catch
  caught (ok a) w handler h = (a, refl)
  caught (err e) w handler h = (h e).at w

  pub Returns-catch :
      (m : Act S A) (handler : String → Act S A)
      → ((e : String) → Returns (handler e))
      → Returns (catch m handler)
  unfolding catch
  Returns-catch m handler h = record {
    at = λ w. let (r, w') = m w in unfold catch in caught r w' handler h;
  }

module _ {S A B : Type 0} where
  continued :
      (r : Result A) (w : World S) (f : A → Act S B)
      → ((a : A) × (r ≡ ok a))
      → ((a : A) → Returns (f a))
      → (b : B) × ((((λ v. (r, v)) >>= f) w).0 ≡ ok b)
  unfolding ◌>>=◌
  continued (ok a) w f h k = (k a).at w
  continued (err e) w f (a, h) k = absurd (ground (arith, h))

  pub Returns-bind :
      (m : Act S A) (f : A → Act S B) → Returns m → ((a : A) → Returns (f a)) → Returns (m >>= f)
  unfolding ◌>>=◌
  Returns-bind m f rm rf = record { at = λ w. let (r, w') = m w in continued r w' f (rm.at w) rf }

module _ {S : Type 0} where
  pub Returns-append_memory :
      (env : Environment) (line : Line)
      → ((t : ℕ) → env.append t line ≡ ok tt)
      → Returns {S = S} (append_memory env line)
  unfolding append_memory ◌>>=◌ ask
  Returns-append_memory env line written = record { at = λ w. (tt, rw (written w.ticks) refl) }

  pub Returns-emit : (event : Event) → Returns {S = S} (emit event)
  unfolding emit
  Returns-emit event = record { at = λ w. (tt, refl) }

  pub Returns-record_metric : (metric : Metric) → Returns {S = S} (record_metric metric)
  unfolding record_metric
  Returns-record_metric metric = record { at = λ w. (tt, refl) }

  pub Returns-set_store : (f : S → S) → Returns {S = S} (set_store f)
  unfolding set_store
  Returns-set_store f = record { at = λ w. (tt, refl) }

pub ruleset returns_rules = (
  Returns-pure, Returns-gets, Returns-ask, Returns-if, Returns-catch, Returns-bind, Returns-emit,
  Returns-record_metric, Returns-set_store,
)
