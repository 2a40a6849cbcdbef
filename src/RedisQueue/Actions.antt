-- ===== src/RedisQueue/Actions.antt =====
-- Inversion of a method that returned without an error, one step at a time.
use gpu_telemetry_pipeline.Base.{◌≡◌, refl, Option, none, some, arith, ◌⊎◌, inl, inr}
use gpu_telemetry_pipeline.Redis.{Reply, done, failed}
use gpu_telemetry_pipeline.RedisQueue.{RedisQueue, ok, Error, Action, ◌>>=◌, command, from_option}

pub Reply-cases {ℓ} : {A : Type ℓ} (r : Reply A) → (r ≡ failed) ⊎ ((a : A) × (r ≡ done a))
Reply-cases (done a) = inr (a, refl)
Reply-cases failed = inl refl

module _ {S A B : Type 0} where
  -- A command that was answered, and the method goes on from its store.
  pub command->>=-ok :
      (c : S → Reply A × S) (f : A → Action S B) (q : RedisQueue S) (b : B)
      → ((command c >>= f) q).0 ≡ ok b
      → (a : A) × ((c q.store).0 ≡ done a)
        × ((command c >>= f) q ≡ f a (record q { store = (c q.store).1 }))
  command->>=-ok c f q b h = elim (Reply-cases (c q.store).0) [
    | inl e ↦ absurd (ground (arith, e))
    | inr (a, e) ↦ (a, e, ground (arith, e))
  ]

  pub from_option->>=-ok :
      (e : Error) (o : Option A) (f : A → Action S B) (q : RedisQueue S) (b : B)
      → ((from_option e o >>= f) q).0 ≡ ok b
      → (a : A) × (o ≡ some a) × ((from_option e o >>= f) q ≡ f a q)
  from_option->>=-ok e none f q b h = absurd (ground arith)
  from_option->>=-ok e (some a) f q b h = (a, refl, refl)
