-- ===== src/Runtime/SensorCheck/Exit.antt =====
-- The exit code of the diagnosis, in terms of the counters and the collected events.
use cloud_native_threat_guar.Prelude.{
  ℕ, ◌+◌, String, Bool, true, false, not, ◌&&◌, ◌||◌, [], ◌∷◌, ◌==◌, ◌≡◌, refl, eqb, any, count_if,
  if◌then◌else◌, arith, Bool-cases, inl, inr, eq_iff,
}
use cloud_native_threat_guar.Prelude.Int.{ℤ, pos, negsuc}
use cloud_native_threat_guar.Prelude.Dict
use cloud_native_threat_guar.Prelude.Dict.{Dict}
use cloud_native_threat_guar.Detection.Engine.{count_of}
use cloud_native_threat_guar.Detection.Engine.Accounting.{tally-count_if, count_of-empty}
use cloud_native_threat_guar.Runtime.Collector.{CollectionResult, event_kind}
use cloud_native_threat_guar.Runtime.SensorCheck.{
  PolicyCounters, greater, difference, total, sensor_activity, verdict, was_of, put_gain, gains,
  event_kinds, diagnose, exit_of, exit_code,
}

greater-difference : (now was : ℤ) → greater now was ≡ true → eqb (difference now was) 0 ≡ false
greater-difference (pos a) (pos b) h = ground arith
greater-difference (pos a) (negsuc b) h = ground arith
greater-difference (negsuc a) (pos b) h = ground arith
greater-difference (negsuc a) (negsuc b) h = ground arith

total-put :
    (d : Dict ℕ) (k : String) (n : ℕ) → eqb n 0 ≡ false → eqb (total (Dict.put d k n)) 0 ≡ false
unfolding total Dict.put
total-put [] k n h = ground arith
total-put ((j, m) ∷ d) k n h = ground (arith, eq_iff j k, total-put d k n h)

grew : (PolicyCounters → ℤ) → Dict PolicyCounters → String × PolicyCounters → Bool
grew column before (name, now) = greater (column now) (column (was_of before name))

total-put_gain :
    (name : String) (now was : ℤ) (d : Dict ℕ)
    → eqb (total (put_gain name now was d)) 0 ≡ (eqb (total d) 0 && not (greater now was))
total-put_gain name now was d = elim (Bool-cases (greater now was)) [
  | inl h ↦
      rw h (ground (arith, total-put d name (difference now was) (greater-difference now was h)))
  | inr h ↦ rw h (ground arith)
]

total-gains :
    (column : PolicyCounters → ℤ) (before after : Dict PolicyCounters) (d : Dict ℕ)
    → eqb (total (gains column before after d)) 0
      ≡ (eqb (total d) 0 && not (any (grew column before) after))
unfolding gains grew
total-gains column before [] d = ground arith
total-gains column before ((name, now) ∷ after) d =
    let was : ℤ = column (was_of before name) in
    ground (
      arith,
      total-gains column before after (put_gain name (column now) was d),
      total-put_gain name (column now) was d,
    )

-- Some policy posted or enforced more than before.
pub moved : Dict PolicyCounters → Dict PolicyCounters → Bool
moved before after =
    any (grew (λ c. c.posted) before) after || any (grew (λ c. c.enforced) before) after

-- An event of a kernel probe was collected.
pub exported : CollectionResult → Bool
exported captured = not (eqb (count_if (λ e. event_kind e == "process_kprobe") captured.events) 0)

both-zero :
    (p q : ℕ) (a b : Bool)
    → eqb p 0 ≡ (true && not a)
    → eqb q 0 ≡ (true && not b)
    → eqb (p + q) 0 ≡ not (a || b)
both-zero p q a b hp hq = ground arith

still :
    (before after : Dict PolicyCounters)
    → eqb
        (total (gains (λ c. c.posted) before after [])
          + total (gains (λ c. c.enforced) before after []))
        0
      ≡ not (moved before after)
unfolding moved total
still before after =
    both-zero (total (gains (λ c. c.posted) before after []))
      (total (gains (λ c. c.enforced) before after [])) (any (grew (λ c. c.posted) before) after)
      (any (grew (λ c. c.enforced) before) after) (total-gains (λ c. c.posted) before after [])
      (total-gains (λ c. c.enforced) before after [])

kprobes :
    (captured : CollectionResult)
    → not (eqb (count_of (event_kinds captured) "process_kprobe") 0) ≡ exported captured
unfolding event_kinds exported
kprobes captured =
    rw
      (tally-count_if event_kind [] captured.events "process_kprobe"
        (count_of-empty "process_kprobe"))
      refl

-- The code of `main`, by the three tests that it stands on.
pub code_for : (available moving seen : Bool) → ℕ
code_for true true true = 0
code_for true true false = 1
code_for true false seen = 3
code_for false moving seen = 2

code_for-verdict :
    (moving seen : Bool)
    → exit_of
        (if not moving then "INCONCLUSIVE" else if seen then "EXPORTED" else "POSTED_NOT_EXPORTED")
      ≡ code_for true moving seen
unfolding code_for
code_for-verdict true true = refl
code_for-verdict true false = refl
code_for-verdict false seen = refl

-- The diagnosis exits with 2 where the export stream was unavailable; otherwise with 3 where no policy's
-- posted or enforced counter grew; otherwise with 0 where an event of a kernel probe was collected, and
-- with 1 where none was.
pub exit_code_lem :
    (before after : Dict PolicyCounters) (captured : CollectionResult)
    → exit_code (diagnose before after captured)
      ≡ code_for (not (captured.status == "unavailable")) (moved before after) (exported captured)
unfolding exit_code diagnose verdict sensor_activity code_for
exit_code_lem before after captured = elim (Bool-cases (captured.status == "unavailable")) [
  | inl h ↦ rw h refl
  | inr h ↦
      rw (h, still before after, kprobes captured)
        (code_for-verdict (moved before after) (exported captured))
]
