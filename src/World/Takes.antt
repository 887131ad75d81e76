-- ===== src/World/Takes.antt =====
-- How many delegations an action may come to: one rule for each way to build an action.
use jabr.Base.{ℕ, ◌≤◌, String, Bool, true, false, List, arith, length, if◌then◌else◌}
use jabr.World.{World, Act, Result, ok, err, Call, ◌>>=◌, catch}
use jabr.World.Keeps.{Keeps}

module _ {S : Type 0} where
  abbrev pub AtMost : ℕ → List Call → S → Type 0
  AtMost n calls s = length calls ≤ n

  -- From at most `n` delegations `m` comes to at most `k`, whether it returns or throws.
  pub record Takes {A : Type 0} (n k : ℕ) (m : Act S A) : Type 0 where
    pub at : (w : World S) → length w.calls ≤ n → length (m w).1.calls ≤ k

  module _ {A B : Type 0} where
    continued :
        (n k : ℕ) (r : Result A) (w : World S) (f : A → Act S B)
        → n ≤ k
        → ((a : A) → Takes n k (f a))
        → length w.calls ≤ n
        → length (((λ v. (r, v)) >>= f) w).1.calls ≤ k
    unfolding ◌>>=◌
    continued n k (ok a) w f le tf h = (tf a).at w h
    continued n k (err e) w f le tf h = omega arith

    pub Takes-bind :
        (n i k : ℕ) (m : Act S A) (f : A → Act S B)
        → i ≤ k
        → Takes n i m
        → ((a : A) → Takes i k (f a))
        → Takes n k (m >>= f)
    unfolding ◌>>=◌
    Takes-bind n i k m f le tm tf = record {
      at = λ w h. let (r, w') = m w in continued i k r w' f le tf (tm.at w h);
    }

  module _ {A : Type 0} where
    pub Takes-of-Keeps : (n k : ℕ) (m : Act S A) → n ≤ k → Keeps (AtMost n) m → Takes n k m
    Takes-of-Keeps n k m le km = record { at = λ w h. let kept = km.at w h in omega arith }

    pub Takes-if :
        (n k : ℕ) (b : Bool) (m m' : Act S A)
        → Takes n k m
        → Takes n k m'
        → Takes n k (if b then m else m')
    Takes-if n k true m m' t t' = t
    Takes-if n k false m m' t t' = t'

    caught :
        (k : ℕ) (r : Result A) (w : World S) (handler : String → Act S A)
        → ((e : String) → Keeps (AtMost k) (handler e))
        → length w.calls ≤ k
        → length (catch (λ v. (r, v)) handler w).1.calls ≤ k
    unfolding catch
    caught k (ok a) w handler kh h = h
    caught k (err e) w handler kh h = (kh e).at w h

    pub Takes-catch :
        (n k : ℕ) (m : Act S A) (handler : String → Act S A)
        → Takes n k m
        → ((e : String) → Keeps (AtMost k) (handler e))
        → Takes n k (catch m handler)
    unfolding catch
    Takes-catch n k m handler tm kh = record {
      at = λ w h. let (r, w') = m w in unfold catch in caught k r w' handler kh (tm.at w h);
    }
