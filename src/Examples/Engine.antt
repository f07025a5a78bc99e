-- ===== src/Examples/Engine.antt =====
-- The engine of the gateway on a temperature with two limits above.
use project_sh_fms.Prelude.{
  ℕ, ◌≡◌, refl, true, List, [], ◌∷◌, Option, none, some, Text, codes, length, arith, text_eq,
}
use project_sh_fms.Js.Decimal.{decimal}
use project_sh_fms.Engine.{
  pvhh, pvh, unack_active, unack_cleared, Runtime, Sample, Meta, Event, Engine,
}
use project_sh_fms.Engine.Classify.{classify, state_of, shade_of}
use project_sh_fms.Engine.Classify.{state_of-classify}
use project_sh_fms.Engine.Store.{lookup, is_suppressed}
use project_sh_fms.Engine.Store.Keys.{Entries}
use project_sh_fms.Engine.Evaluate.{
  evaluate, evaluate_one, evaluate_all, expire_shelves, is_cleared,
}
use project_sh_fms.Engine.Evaluate.Invariant.{IsValid}
use project_sh_fms.Engine.Evaluate.Repeat.{Alarming, Steady-fires, in_turn, tremble_fires}
use project_sh_fms.Engine.Store.{before_underscore, suppress}
use project_sh_fms.Prelude.{inl}
use project_sh_fms.Engine.Evaluate.Suppressed.{Belongs, suppress_silences}
use project_sh_fms.Engine.Evaluate.Return.{Clearing, unacked_vanishes, return_unraised}
use project_sh_fms.Engine.Operate.{Call, evaluating, shelving, suppressing, run, new_engine}
use project_sh_fms.Engine.Operate.Bounds.{
  run-IsValid, new_engine-IsValid, NotOverdue, evaluate-NotOverdue,
}
use project_sh_fms.Examples.Thousandths.{thousandths}

abbrev pub runtime : Runtime thousandths
runtime = record {
  fold = λ s. s;
  stamp = λ n. codes "260923";
  show = λ x. decimal x;
  four = λ n. decimal n;
}

abbrev pub line_tag : Text
line_tag = codes "CT02_TT401"

abbrev pub oven : Meta thousandths
oven = record {
  tag = line_tag;
  desc = codes "Oven";
  unit = codes "C";
  area = codes "B";
  lo_lo = none;
  lo = some 1000;
  hi = some 5000;
  hi_hi = some 6000;
  deadband = 100;
  priority = 3;
}

abbrev meta : Text → Option (Meta thousandths)
meta k = some oven

abbrev pub sample : ℕ → Sample thousandths
sample x = record { tag = line_tag; value = x; quality = codes "Good"; ts = 0 }

abbrev started : Engine thousandths
started = record { active = []; history = []; suppressed = []; seq = 0 }

-- An alarm that nobody has acknowledged.
abbrev pub first_event : Event thousandths
first_event = record {
  raised = record {
    id = codes "AL-260923-1";
    tag = line_tag;
    area = codes "B";
    priority = 3;
    kind = pvh;
    message = codes "Oven";
    raised_at = 0;
    limit = 5000;
  };
  acked_at = none;
  acked_by = none;
  cleared_at = none;
  state = unack_active;
  shelf_expires_at = none;
  value = 5500;
}

abbrev pub ringing : Engine thousandths
ringing = record {
  active = (line_tag, first_event) ∷ [];
  history = first_event.raised ∷ [];
  suppressed = [];
  seq = 1;
}

classify_high : classify thousandths runtime (sample 5500) oven ≡ some (pvh, 5000)
unfolding classify text_eq
classify_high = refl

classify_highest : classify thousandths runtime (sample 6500) oven ≡ some (pvhh, 6000)
unfolding classify text_eq
classify_highest = refl

classify_inside : classify thousandths runtime (sample 3000) oven ≡ none
unfolding classify text_eq
classify_inside = refl

high : Alarming thousandths runtime meta (sample 5500) pvh []
unfolding is_suppressed
high = record { m = oven; l = 5000; configured = refl; heard = refl; classified = classify_high }

highest : Alarming thousandths runtime meta (sample 6500) pvhh []
unfolding is_suppressed
highest = record {
  m = oven;
  l = 6000;
  configured = refl;
  heard = refl;
  classified = classify_highest;
}

inside : Clearing thousandths runtime meta (sample 3000) first_event []
unfolding is_suppressed is_cleared
inside = record {
  m = oven;
  configured = refl;
  heard = refl;
  classified = classify_inside;
  inside = refl;
}

state_of-classify_example :
    state_of thousandths runtime (sample 5500) (some oven)
    ≡ shade_of thousandths runtime (classify thousandths runtime (sample 5500) oven)
state_of-classify_example = state_of-classify thousandths runtime (sample 5500) oven

line_two : Belongs thousandths runtime meta (codes "CT02") (sample 6500, 1)
unfolding before_underscore
line_two = record { m = oven; configured = refl; part = inl refl }

suppress_silences_example :
    let e = suppress thousandths runtime (codes "CT02") true ringing in
    evaluate thousandths runtime meta ((sample 6500, 1) ∷ []) 2 e
    ≡ (expire_shelves thousandths runtime 2 e, [])
suppress_silences_example =
    suppress_silences thousandths runtime meta (codes "CT02") ((sample 6500, 1) ∷ []) 2 ringing
      (line_two, tt)

Steady-fires_example :
    length
      (evaluate_all thousandths runtime meta ((sample 5500, 1) ∷ (sample 5500, 2) ∷ []) started).1
    ≡ 1
unfolding lookup
Steady-fires_example =
    Steady-fires thousandths runtime meta line_tag pvh (sample 5500) 1 ((sample 5500, 2) ∷ [])
      started (refl, high, (refl, high, tt))

tremble_fires_example :
    length
      (evaluate_all thousandths runtime meta
        (in_turn thousandths runtime meta (((sample 6500, 1), (sample 5500, 2)) ∷ []))
        started).1
    ≡ 2
unfolding lookup
tremble_fires_example =
    tremble_fires thousandths runtime meta line_tag pvhh pvh
      (((sample 6500, 1), (sample 5500, 2)) ∷ []) started (λ q. omega (arith, q)) (λ q. cc)
      (refl, highest, refl, high, tt)

unacked_vanishes_example :
    let e1 = (evaluate_one thousandths runtime meta (sample 3000) 7 ringing).0 in
    (lookup line_tag e1.active
      ≡ some (record first_event { cleared_at = some 7; state = unack_cleared }))
    × (lookup line_tag (evaluate_one thousandths runtime meta (sample 3000) 8 e1).0.active ≡ none)
unfolding lookup text_eq
unacked_vanishes_example =
    unacked_vanishes thousandths runtime meta (sample 3000) (sample 3000) 7 8 first_event ringing
      refl refl refl inside inside

return_unraised_example :
    let (e, fired) =
      evaluate_all thousandths runtime meta ((sample 3000, 7) ∷ (sample 5500, 9) ∷ []) ringing in
    (fired ≡ [])
    × (lookup line_tag e.active
        ≡ some (record first_event { cleared_at = some 7; state = unack_cleared; value = 5500 }))
unfolding lookup text_eq
return_unraised_example =
    return_unraised thousandths runtime meta (sample 3000) 7 pvh ((sample 5500, 9) ∷ []) first_event
      ringing refl refl inside refl (refl, high, tt)

abbrev calls : List (Call thousandths)
calls =
    evaluating ((sample 5500, 1) ∷ []) 2
    ∷ shelving (codes "AL-260923-1") (codes "op") 900_000_000_000 3
    ∷ suppressing (codes "CT02") true
    ∷ []

run-IsValid_example :
    IsValid thousandths 10 (run thousandths runtime meta calls (new_engine thousandths))
run-IsValid_example =
    run-IsValid thousandths 10 runtime meta calls (new_engine thousandths)
      (tt, (omega arith, (tt, tt))) (new_engine-IsValid thousandths 10)

evaluate-NotOverdue_example :
    Entries
      (NotOverdue thousandths runtime 5)
      (evaluate thousandths runtime meta ((sample 5500, 1) ∷ []) 5 ringing).0.active
evaluate-NotOverdue_example =
    evaluate-NotOverdue thousandths runtime meta ((sample 5500, 1) ∷ []) 5 ringing
