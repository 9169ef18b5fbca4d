-- ===== src/Coordination/Policy/Settings.antt =====
-- danus/coordination/policy.py: the settings that are written can be read, and are within bounds.
use danus.Base.{
  ℕ, zero, suc, if◌then◌else◌, ◌+◌, ◌≤◌, String, ◌&&◌, Option, ◌≡◌, ◌∙◌, refl, sym, ap, ◌⊎◌, inl,
  inr, arith, leb, Bool-cases, if_true, if_false,
}
use danus.Base.Result.{
  ok, ◌>>=◌, ◌>>◌, require, Holds, Holds-ok, Holds-err, Holds-bind, Holds-require, Holds-if,
  require-then-eq-ok, ok_injective,
}
use danus.Core.Verdict.{
  Json, null, bool, int, negative, float, text, array, object, Fields, field, no_fields, get, keys,
  all_of, one_of,
}
use danus.Coordination.Policy.{
  CoordinationConfig, legacy_config, is_reasoning, is_legacy, coordination_payload, is_word,
  bounded, reasoning_config, config_of, coordination_config,
}

abbrev pub reasoning_settings : ℕ → CoordinationConfig
reasoning_settings max_paid = record {
  mode = "reasoning_first_v1";
  max_paid_workers = max_paid;
  phase_timeout_seconds = 2700;
}

bounded_lem :
    (limit : ℕ) (message : String) (v : Json)
    → Holds (λ n. (1 ≤ n) × (n ≤ limit)) (bounded limit message v)
unfolding bounded
bounded_lem limit message (int n) =
    Holds-require (leb 1 n && leb n limit) message
      (λ h. Holds-ok (ground (arith, h), ground (arith, h)))
bounded_lem limit message null = Holds-err
bounded_lem limit message (bool b) = Holds-err
bounded_lem limit message (negative n) = Holds-err
bounded_lem limit message (float f) = Holds-err
bounded_lem limit message (text t) = Holds-err
bounded_lem limit message (array xs) = Holds-err
bounded_lem limit message (object fs) = Holds-err

-- Settings that are read are legacy ones, or of the reasoning-first mode and within its bounds.
abbrev pub IsWithin : CoordinationConfig → Type 0
IsWithin c =
    (c ≡ legacy_config)
    ⊎ ((c.mode ≡ "reasoning_first_v1")
        × (1 ≤ c.max_paid_workers)
        × (c.max_paid_workers ≤ 4)
        × (1 ≤ c.phase_timeout_seconds)
        × (c.phase_timeout_seconds ≤ 2700))

reasoning-IsWithin : (raw : Fields) → Holds IsWithin (reasoning_config raw)
unfolding reasoning_config
reasoning-IsWithin raw = Holds-require _ _ (λ _. Holds-require _ _ (λ _.
    Holds-bind (bounded 4 _ (get "max_paid_workers" raw)) (λ n en.
      Holds-bind (bounded 2700 _ (get "phase_timeout_seconds" raw)) (λ t et.
        let (low, high) = (bounded_lem 4 _ (get "max_paid_workers" raw)).at n en in
        let (first, last) = (bounded_lem 2700 _ (get "phase_timeout_seconds" raw)).at t et in
        Holds-ok (inr (refl, low, high, first, last))))))

config-IsWithin : (v : Json) → Holds IsWithin (config_of v)
unfolding config_of
config-IsWithin null = Holds-ok (inl refl)
config-IsWithin (object raw) =
    Holds-if (is_word "legacy" (get "mode" raw)) (λ _. Holds-require _ _ (λ _. Holds-ok (inl refl)))
      (λ _. reasoning-IsWithin raw)
config-IsWithin (bool b) = Holds-err
config-IsWithin (int n) = Holds-err
config-IsWithin (negative n) = Holds-err
config-IsWithin (float f) = Holds-err
config-IsWithin (text t) = Holds-err
config-IsWithin (array xs) = Holds-err

-- The settings that are read from a project are the legacy ones with no paid worker, or have from 1
-- to 4 paid workers and a phase of 1 to 2700 seconds.
pub coordination_config-IsWithin :
    (metadata : Fields) (c : CoordinationConfig) → coordination_config metadata ≡ ok c → IsWithin c
unfolding coordination_config
coordination_config-IsWithin metadata c h = (config-IsWithin (get "coordination" metadata)).at c h

abbrev reasoning_payload : ℕ → Fields
reasoning_payload n =
    field "mode" (text "reasoning_first_v1")
      (field "max_paid_workers" (int (2 + n)) (field "phase_timeout_seconds" (int 2700) no_fields))

reads_reasoning :
    (n : ℕ) → n ≤ 2 → config_of (object (reasoning_payload n)) ≡ ok (reasoning_settings (2 + n))
unfolding config_of reasoning_config bounded get keys all_of one_of ◌>>=◌ ◌>>◌ require
reads_reasoning zero h = refl
reads_reasoning (suc zero) h = refl
reads_reasoning (suc (suc zero)) h = refl
reads_reasoning (suc (suc (suc n))) h = ground (arith, h)

reads_legacy : config_of (object (field "mode" (text "legacy") no_fields)) ≡ ok legacy_config
unfolding config_of get keys all_of one_of ◌>>◌ require
reads_legacy = refl

-- The settings that a choice of the command line writes, with 0, 1 or 2 active explorers, are read
-- from the project as the mode that was chosen: the reasoning-first one with two more paid workers
-- than explorers, or the legacy one.
pub coordination_config-coordination_payload :
    (choice : Option String) (n : ℕ) (payload metadata : Fields)
    → coordination_payload choice n ≡ ok payload
    → get "coordination" metadata ≡ object payload
    → coordination_config metadata
      ≡ ok (if is_reasoning choice then reasoning_settings (2 + n) else legacy_config)
unfolding coordination_payload coordination_config
coordination_config-coordination_payload choice n payload metadata h here =
    let (few, rest) = require-then-eq-ok (leb n 2) _ _ h in
    elim (Bool-cases (is_reasoning choice)) [
      | inl reasoning ↦
          let shape : reasoning_payload n ≡ payload =
            ok_injective (sym (if_true _ _ reasoning) ∙ rest) in
          ap config_of (here ∙ ap object (sym shape))
          ∙ reads_reasoning n (ground (arith, few))
          ∙ ap ok (sym (if_true _ _ reasoning))
      | inr other ↦
          let (_, last) =
            require-then-eq-ok (is_legacy choice) _ _ (sym (if_false _ _ other) ∙ rest) in
          let (_, written) = require-then-eq-ok (leb n 0) _ _ last in
          ap config_of (here ∙ ap object (sym (ok_injective written)))
          ∙ reads_legacy
          ∙ ap ok (sym (if_false _ _ other))
    ]
