-- ===== src/World/Keeps.antt =====
-- Invariants of actions: one rule for each way to build an action. The invariants are about the
-- delegations sent and the task store, so the other writes keep them.
use jabr.Base.{ℕ, ◌≡◌, refl, Bool, true, false, List, [], ◌∷◌, ◌++◌, String, if◌then◌else◌}
use jabr.World.{
  World, Act, Result, ok, err, Environment, Call, Line, Event, Metric, pure, throw, throw_text,
  gets, catch, ask, ◌>>=◌, ◌>>◌, append_memory, emit, record_metric, send, note_consumed,
  note_kanban, set_store,
}

-- `m` keeps `R`, whether it returns or throws.
pub record Keeps {S A : Type 0} (R : List Call → S → Type 0) (m : Act S A) : Type 0 where
  pub at : (w : World S) → R w.calls w.store → R (m w).1.calls (m w).1.store

module _ {S A : Type 0} {R : List Call → S → Type 0} where
  pub Keeps-pure : (a : A) → Keeps R (pure a)
  Keeps-pure a = record { at = λ w h. h }

  pub Keeps-throw : (message : String) → Keeps R (throw {A = A} message)
  Keeps-throw message = record { at = λ w h. h }

  pub Keeps-throw_text : (text : String) → Keeps R (throw_text {A = A} text)
  Keeps-throw_text text = record { at = λ w h. h }

  pub Keeps-gets : (f : World S → A) → Keeps R (gets f)
  Keeps-gets f = record { at = λ w h. h }

  pub Keeps-ask : (answer : ℕ → Result A) → Keeps R (ask answer)
  unfolding ask
  Keeps-ask answer = record { at = λ w h. h }

  pub Keeps-if :
      (b : Bool) (m n : Act S A)
      → (b ≡ true → Keeps R m)
      → (b ≡ false → Keeps R n)
      → Keeps R (if b then m else n)
  Keeps-if true m n km kn = km refl
  Keeps-if false m n km kn = kn refl

  caught :
      (r : Result A) (w : World S) (handler : String → Act S A)
      → ((e : String) → Keeps R (handler e))
      → R w.calls w.store
      → R (catch (λ v. (r, v)) handler w).1.calls (catch (λ v. (r, v)) handler w).1.store
  unfolding catch
  caught (ok a) w handler kh h = h
  caught (err e) w handler kh h = (kh e).at w h

  pub Keeps-catch :
      (m : Act S A) (handler : String → Act S A)
      → Keeps R m
      → ((e : String) → Keeps R (handler e))
      → Keeps R (catch m handler)
  unfolding catch
  Keeps-catch m handler km kh = record {
    at = λ w h. let (r, w') = m w in unfold catch in caught r w' handler kh (km.at w h);
  }

module _ {S A B : Type 0} {R : List Call → S → Type 0} where
  continued :
      (r : Result A) (w : World S) (f : A → Act S B)
      → ((a : A) → Keeps R (f a))
      → R w.calls w.store
      → R (((λ v. (r, v)) >>= f) w).1.calls (((λ v. (r, v)) >>= f) w).1.store
  unfolding ◌>>=◌
  continued (ok a) w f kf h = (kf a).at w h
  continued (err e) w f kf h = h

  pub Keeps-bind :
      (m : Act S A) (f : A → Act S B) → Keeps R m → ((a : A) → Keeps R (f a)) → Keeps R (m >>= f)
  unfolding ◌>>=◌
  Keeps-bind m f km kf = record { at = λ w h. let (r, w') = m w in continued r w' f kf (km.at w h) }

module _ {S A B : Type 0} where
  stopped :
      (R : List Call → S → Type 0) (r : Result A) (w : World S) (message : String) (rest : Act S B)
      → R w.calls w.store
      → R
          ((((λ v. (r, v)) >> throw {A = Unit {0}} message) >> rest) w).1.calls
          ((((λ v. (r, v)) >> throw {A = Unit {0}} message) >> rest) w).1.store
  unfolding ◌>>=◌
  stopped R (ok a) w message rest h = h
  stopped R (err e) w message rest h = h

  -- What follows a throw is not reached.
  pub Keeps-stopped :
      {R : List Call → S → Type 0} (m : Act S A) (message : String) (rest : Act S B)
      → Keeps R m
      → Keeps R ((m >> throw {A = Unit {0}} message) >> rest)
  unfolding ◌>>=◌
  Keeps-stopped {R} m message rest km = record {
    at = λ w h. let (r, w') = m w in stopped R r w' message rest (km.at w h);
  }

module _ {S : Type 0} {R : List Call → S → Type 0} where
  pub Keeps-append_memory :
      (env : Environment) (line : Line) → Keeps {S = S} R (append_memory env line)
  unfolding append_memory
  Keeps-append_memory env line = Keeps-bind _ _ (Keeps-ask _) (λ _. record { at = λ w h. h })

  pub Keeps-emit : (event : Event) → Keeps {S = S} R (emit event)
  unfolding emit
  Keeps-emit event = record { at = λ w h. h }

  pub Keeps-record_metric : (metric : Metric) → Keeps {S = S} R (record_metric metric)
  unfolding record_metric
  Keeps-record_metric metric = record { at = λ w h. h }

  pub Keeps-note_consumed :
      (agent : String) (tokens : ℕ) → Keeps {S = S} R (note_consumed agent tokens)
  unfolding note_consumed
  Keeps-note_consumed agent tokens = record { at = λ w h. h }

  pub Keeps-note_kanban : (title body : String) → Keeps {S = S} R (note_kanban title body)
  unfolding note_kanban
  Keeps-note_kanban title body = record { at = λ w h. h }

  pub Keeps-send :
      (call : Call)
      → ((calls : List Call) (s : S) → R calls s → R (calls ++ call ∷ []) s)
      → Keeps {S = S} R (send call)
  unfolding send
  Keeps-send call step = record { at = λ w h. step w.calls w.store h }

  pub Keeps-set_store :
      (f : S → S)
      → ((calls : List Call) (s : S) → R calls s → R calls (f s))
      → Keeps {S = S} R (set_store f)
  unfolding set_store
  Keeps-set_store f step = record { at = λ w h. step w.calls w.store h }

pub ruleset keeps_rules = (
  Keeps-pure, Keeps-throw, Keeps-throw_text, Keeps-gets, Keeps-ask, Keeps-if, Keeps-catch,
  Keeps-bind, Keeps-append_memory, Keeps-emit, Keeps-record_metric, Keeps-note_consumed,
  Keeps-note_kanban,
)
