-- ===== src/RedisQueue/Keeps.antt =====
-- An action that keeps a property of the queue, whatever it returns: the rules for the steps of a
-- method.
use gpu_telemetry_pipeline.Base.{Option, none, some, ◌≡◌, refl}
use gpu_telemetry_pipeline.RedisQueue.{
  RedisQueue, Result, ok, err, panicked, Error, Action, ◌>>=◌, after, after_either, attempt, panic,
  drop_error, pure, discard, from_option,
}

module _ {S : Type 0} (P : RedisQueue S → Type 0) where
  pub record Keeps {A : Type 0} (m : Action S A) : Type 0 where
    pub at : (q : RedisQueue S) → P q → P (m q).1

  pub drop_error-keeps : (r : Result (Unit {0}) × RedisQueue S) → P r.1 → P (drop_error r).1
  drop_error-keeps (ok a, p) v = v
  drop_error-keeps (err e, p) v = v
  drop_error-keeps (panicked, p) v = v

  pub after-keeps :
      {A B : Type 0} (r : Result A × RedisQueue S) (f : A → Action S B)
      → P r.1
      → ((a : A) → Keeps (f a))
      → P (after r f).1
  after-keeps (ok a, p) f v kf = (kf a).at p v
  after-keeps (err e, p) f v kf = v
  after-keeps (panicked, p) f v kf = v

module _ {S : Type 0} {P : RedisQueue S → Type 0} where
  pub Keeps-pure : {A : Type 0} (a : A) → Keeps P (pure a)
  Keeps-pure a = record { at = λ q v. v }

  pub Keeps-panic : {A : Type 0} → Keeps P (panic {A = A})
  Keeps-panic = record { at = λ q v. v }

  pub Keeps-from_option : {A : Type 0} (e : Error) (o : Option A) → Keeps P (from_option e o)
  Keeps-from_option e none = record { at = λ q v. v }
  Keeps-from_option e (some a) = record { at = λ q v. v }

  pub Keeps-bind :
      {A B : Type 0} (m : Action S A) (f : A → Action S B)
      → Keeps P m
      → ((a : A) → Keeps P (f a))
      → Keeps P (m >>= f)
  Keeps-bind m f km kf = record { at = λ q v. after-keeps P (m q) f (km.at q v) kf }

  -- The rest of a method may use that there was a value.
  pub Keeps-from_option-bind :
      {A B : Type 0} (e : Error) (o : Option A) (f : A → Action S B)
      → ((a : A) → o ≡ some a → Keeps P (f a))
      → Keeps P (from_option e o >>= f)
  Keeps-from_option-bind e none f kf = record { at = λ q v. v }
  Keeps-from_option-bind e (some a) f kf = record { at = λ q v. (kf a refl).at q v }

  pub Keeps-discard : (m : Action S (Unit {0})) → Keeps P m → Keeps P (discard m)
  Keeps-discard m km = record { at = λ q v. drop_error-keeps P (m q) (km.at q v) }

  pub Keeps-attempt :
      {A B : Type 0} (m : Action S A) (f : A → Action S B) (g : Action S B)
      → Keeps P m
      → ((a : A) → Keeps P (f a))
      → Keeps P g
      → Keeps P (attempt m f g)
  Keeps-attempt m f g km kf kg = record { at = λ q v. go (m q) (km.at q v) }
    where
      go : (r : Result _ × RedisQueue S) → P r.1 → P (after_either r f g).1
      go (ok a, p) v = (kf a).at p v
      go (err e, p) v = kg.at p v
      go (panicked, p) v = v

pub ruleset keep_rules =
    (Keeps-panic, Keeps-attempt, Keeps-pure, Keeps-from_option, Keeps-bind, Keeps-discard)
