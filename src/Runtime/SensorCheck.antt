-- ===== src/Runtime/SensorCheck.antt =====
-- src/cloudnative_threatguard/runtime/sensor_check.py: the counters of the sensor's policies before and after a
-- probe, against the events that were exported. `int_of` is `int` on a text, where a ValueError is none, and a
-- table is given as the words of its lines. The calls of kubectl between the readings are left out.
pub mod Exit
use cloud_native_threat_guar.Prelude.{
  ℕ, suc, ◌+◌, ◌-◌, String, Bool, true, false, not, Option, none, some, List, [], ◌∷◌, ◌==◌, eqb,
  ltb, count_if, length, if◌then◌else◌,
}
use cloud_native_threat_guar.Prelude.Int.{ℤ, pos, negsuc}
use cloud_native_threat_guar.Prelude.Dict
use cloud_native_threat_guar.Prelude.Dict.{Dict}
use cloud_native_threat_guar.Detection.Engine.{count_of, tally}
use cloud_native_threat_guar.Runtime.Collector.{CollectionResult, event_kind}

pub record PolicyCounters : Type 0 where
  pub posted : ℤ
  pub enforced : ℤ

abbrev pub no_counters : PolicyCounters
no_counters = record { posted = pos 0; enforced = pos 0 }

-- `(parts[-3], parts[-2])`, of at least three words
unfoldable pub last_columns : List String → Option (String × String)
last_columns (p ∷ e ∷ m ∷ []) = some (p, e)
last_columns (a ∷ b ∷ c ∷ d ∷ parts) = last_columns (b ∷ c ∷ d ∷ parts)
last_columns parts = none

abbrev pub second : List String → Option String
second (a ∷ b ∷ parts) = some b
second parts = none

infixl 10 ◌>>=◌
abbrev ◌>>=◌ : {A B : Type 0} → Option A → (A → Option B) → Option B
none >>= f = none
some a >>= f = f a

module _ (int_of : String → Option ℤ) where
  -- None for a line that is passed over.
  unfoldable pub counters_of : List String → Option (String × PolicyCounters)
  unfolding last_columns
  counters_of parts = if ltb (length parts) 6 then none else (do
    (posted_text, enforced_text) ← last_columns parts
    posted ← int_of posted_text
    enforced ← int_of enforced_text
    name ← second parts
    some (name, record { posted = posted; enforced = enforced }))

  abbrev pub add_counters :
      Option (String × PolicyCounters) → Dict PolicyCounters → Dict PolicyCounters
  add_counters none counters = counters
  add_counters (some (name, c)) counters = Dict.put counters name c

  unfoldable pub parse_lines : List (List String) → Dict PolicyCounters → Dict PolicyCounters
  unfolding counters_of Dict.put
  parse_lines [] counters = counters
  parse_lines (parts ∷ lines) counters =
      parse_lines lines (add_counters (counters_of parts) counters)

  -- The first line is the heading.
  unfoldable pub parse_policy_table : List (List String) → Dict PolicyCounters
  unfolding parse_lines
  parse_policy_table [] = []
  parse_policy_table (heading ∷ lines) = parse_lines lines []

abbrev pub greater : ℤ → ℤ → Bool
greater (pos a) (pos b) = ltb b a
greater (pos a) (negsuc b) = true
greater (negsuc a) (pos b) = false
greater (negsuc a) (negsuc b) = ltb a b

-- `now - was`, where it is positive
abbrev pub difference : ℤ → ℤ → ℕ
difference (pos a) (pos b) = a - b
difference (pos a) (negsuc b) = suc (a + b)
difference (negsuc a) (pos b) = 0
difference (negsuc a) (negsuc b) = b - a

pub record Diagnosis : Type 0 where
  pub posted_delta : Dict ℕ
  pub enforced_delta : Dict ℕ
  pub exported_kprobe_events : ℕ
  pub exported_exec_events : ℕ

unfoldable pub total : Dict ℕ → ℕ
total [] = 0
total ((name, delta) ∷ d) = delta + total d

unfoldable pub sensor_activity : Diagnosis → ℕ
unfolding total
sensor_activity d = total d.posted_delta + total d.enforced_delta

unfoldable pub verdict : Diagnosis → String
unfolding sensor_activity
verdict d =
    if eqb (sensor_activity d) 0
    then "INCONCLUSIVE"
    else if not (eqb d.exported_kprobe_events 0)
    then "EXPORTED"
    else "POSTED_NOT_EXPORTED"

abbrev pub was_of : Dict PolicyCounters → String → PolicyCounters
was_of before name = elim (Dict.get before name) [ none ↦ no_counters | some counters ↦ counters ]

abbrev pub put_gain : String → ℤ → ℤ → Dict ℕ → Dict ℕ
put_gain name now was deltas =
    if greater now was then Dict.put deltas name (difference now was) else deltas

-- The deltas of one column of the counters.
unfoldable pub gains :
    (PolicyCounters → ℤ) → Dict PolicyCounters → Dict PolicyCounters → Dict ℕ → Dict ℕ
unfolding Dict.get Dict.put
gains column before [] deltas = deltas
gains column before ((name, now) ∷ after) deltas =
    gains column before after (put_gain name (column now) (column (was_of before name)) deltas)

-- The property `event_kinds` of what was collected
unfoldable pub event_kinds : CollectionResult → Dict ℕ
unfolding tally event_kind
event_kinds captured = tally event_kind [] captured.events

-- None is the error about the export stream.
unfoldable pub diagnose :
    Dict PolicyCounters → Dict PolicyCounters → CollectionResult → Option Diagnosis
unfolding gains event_kinds count_of
diagnose before after captured =
    if captured.status == "unavailable"
    then none
    else some (record {
      posted_delta = gains (λ c. c.posted) before after [];
      enforced_delta = gains (λ c. c.enforced) before after [];
      exported_kprobe_events = count_of (event_kinds captured) "process_kprobe";
      exported_exec_events = count_of (event_kinds captured) "process_exec";
    })

abbrev pub exit_of : String → ℕ
exit_of verdict =
    if verdict == "EXPORTED" then 0 else if verdict == "POSTED_NOT_EXPORTED" then 1 else 3

unfoldable pub exit_code : Option Diagnosis → ℕ
unfolding verdict
exit_code none = 2
exit_code (some d) = exit_of (verdict d)
