-- ===== src/RedisQueue/Keys.antt =====
-- The Redis keys of the queue: two topics never share a list.
use text.Mathlib.TextLemmas.{append_cancel_left, append_cancel_right}
use gpu_telemetry_pipeline.Base.{
  String, ◌≡◌, str_eq, str_eq_iff, str_eq_of_ne, str_eq_refl, Bool-cases, inl, inr,
}
use gpu_telemetry_pipeline.RedisQueue.{queue_key}

pub queue_key_injective : (s t : String) → queue_key s ≡ queue_key t → s ≡ t
unfolding queue_key
queue_key_injective s t e = append_cancel_right s t "" (append_cancel_left "queue:" _ _ e)

-- A queue key is compared as its topic is.
pub str_eq-queue_key : (s t : String) → str_eq (queue_key s) (queue_key t) ≡ str_eq s t
str_eq-queue_key s t = elim (Bool-cases (str_eq s t)) [
  | inl e ↦ rw (e, (str_eq_iff s t).0 e) (str_eq_refl (queue_key t))
  | inr e ↦ rw e (
      str_eq_of_ne _ _
        λ (k : queue_key s ≡ queue_key t). cc ((str_eq_iff s t).1 (queue_key_injective s t k)))
]
