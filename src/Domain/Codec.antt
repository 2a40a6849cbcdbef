-- ===== src/Domain/Codec.antt =====
-- A codec of telemetry points that reads back what it wrote, in place of encoding/json.
use Prim.Native.Char.{code}
use mathlib.Core.Option.{some-injective}
use gpu_telemetry_pipeline.Base.{
  ℕ, zero, suc, String, Option, none, some, ◌≡◌, refl, sym, ap, ◌∙◌, arith, if◌then◌else◌, ◌==◌,
}
use gpu_telemetry_pipeline.Domain.{TelemetryPoint, TelemetryJson, IsFaithful}

-- Each character of the first text is marked; the second text stands as it is.
unfoldable pub join : String → String → String
join String.[] t = String.◌∷◌ "b" t
join (String.◌∷◌ c s) t = String.◌∷◌ "a" (String.◌∷◌ c (join s t))

unfoldable pub split : String → Option (String × String)
split String.[] = none
split (String.◌∷◌ c String.[]) = if code c == 98 then some ("", "") else none
split (String.◌∷◌ c (String.◌∷◌ d s)) =
    if code c == 98
    then some ("", String.◌∷◌ d s)
    else elim (split s) [ none ↦ none | some st ↦ some (String.◌∷◌ d st.0, st.1) ]

split-join : (s t : String) → split (join s t) ≡ some (s, t)
unfolding split join
split-join String.[] String.[] = refl
split-join String.[] (String.◌∷◌ d t) = refl
split-join (String.◌∷◌ c s) t = ground (arith, split-join s t)

unfoldable pub tally : ℕ → String
tally zero = ""
tally (suc n) = String.◌∷◌ "a" (tally n)

unfoldable pub tally_length : String → ℕ
tally_length String.[] = 0
tally_length (String.◌∷◌ c s) = suc (tally_length s)

tally_length-tally : (n : ℕ) → tally_length (tally n) ≡ n
unfolding tally tally_length
tally_length-tally zero = refl
tally_length-tally (suc n) = ap suc (tally_length-tally n)

unfoldable pub write : TelemetryPoint → String
write t =
    join t.gpu_uuid
      (join t.metric_name (join t.value (join (tally t.timestamp) (join t.batch_id t.labels_raw))))

abbrev pub after :
    Option (String × String) → (String → String → Option TelemetryPoint) → Option TelemetryPoint
after none f = none
after (some (s, t)) f = f s t

unfoldable pub read : String → Option TelemetryPoint
read bytes = after (split bytes) (λ uuid rest. after (split rest) (λ metric rest.
    after (split rest) (λ val rest. after (split rest) (λ time rest.
      after (split rest) (λ batch labels. some (record {
        gpu_uuid = uuid;
        metric_name = metric;
        value = val;
        timestamp = tally_length time;
        batch_id = batch;
        labels_raw = labels;
      }))))))

read-write : (t : TelemetryPoint) → read (write t) ≡ some t
unfolding read write
read-write t =
    rw
      (
        split-join t.gpu_uuid,
        split-join t.metric_name,
        split-join t.value,
        split-join (tally t.timestamp),
        split-join t.batch_id,
        tally_length-tally t.timestamp,
      )
      refl

instance abbrev pub codec : TelemetryJson
codec = record { marshal = λ t. some (write t); unmarshal = read }

pub codec-IsFaithful : IsFaithful codec
codec-IsFaithful t bytes h = ap read (sym (some-injective _ _ h)) ∙ read-write t
