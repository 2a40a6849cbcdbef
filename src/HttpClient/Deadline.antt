-- ===== src/HttpClient/Deadline.antt =====
-- `Shutdown` in a context that ends, and two calls of `Subscribe` for one topic at the same time.
use gpu_telemetry_pipeline.Base.{
  ℕ, List, Bool, true, false, [], ◌∷◌, ◌≡◌, ◌≢◌, refl, if◌then◌else◌, lookup, insert, arith,
}
use gpu_telemetry_pipeline.HttpClient.Subscriptions.{
  Subscription, new_client, has_shut_down, put, waits, all_done, expired, await_closed, Polling,
  may_subscribe, add_subscription,
}

-- While its context lasts, `Shutdown` waits until every subscription is closed; once the context has
-- ended it returns, whatever the subscriptions do, and if one of them is not closed, with the
-- context's error.
pub await_closed_cases :
    (prefers : ℕ → Bool) (subs : List ℕ) (objects : List Subscription)
    → (await_closed prefers false subs objects
        ≡ (if has_shut_down subs objects then all_done else waits))
      × (await_closed prefers true subs objects ≢ waits)
      × (has_shut_down subs objects ≡ false → await_closed prefers true subs objects ≡ expired)
unfolding await_closed has_shut_down
await_closed_cases prefers [] objects = (refl, λ h. ground (arith, h), λ h. ground (arith, h))
await_closed_cases prefers (i ∷ subs) objects =
    let ih = await_closed_cases prefers subs objects in
    (ground (arith, ih.0), λ h. ground (arith, h, ih.1), λ h. ground (arith, h, ih.2))

-- Both calls find no subscription, and both start a loop; the first object is in no entry.
race :
    let p : Polling = record { subscriptions = new_client; polls = [] } in
    let both = add_subscription "telemetry" 2 false (add_subscription "telemetry" 1 false p) in
    (may_subscribe "telemetry" p ≡ true)
    × (both.polls ≡ "telemetry" ∷ "telemetry" ∷ [])
    × (both.subscriptions.entries ≡ ("telemetry", 1) ∷ [])
unfolding may_subscribe add_subscription put new_client lookup insert
race = (refl, refl, refl)
