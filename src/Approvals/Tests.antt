-- ===== src/Approvals/Tests.antt =====
-- Runs of the approval queue with one env that has a state file.
use tenon.Prelude.{
  ◌+◌, true, false, ◌≡◌, refl, none, some, List, [], ◌∷◌, arith, ok, String_eq, get_elem?,
}
use tenon.Prelude.Int.{pos}
use tenon.Json.{null}
use tenon.ApprovalRows.{
  approved, is_pending, Approval, empty, approval, put_approval, decide_approval, approvals,
}
use tenon.Approvals.{
  Config, World, Queue, sweep_approvals, decide, enqueue, record_row, env_approval, move_env_row,
}
use tenon.Approvals.Answers.{read_decision, approval_answer}
use tenon.Approvals.Gate.{approval_request, gate_request, gate_outcome, approval_mode}
use tenon.Approvals.Runs.{Call, request, gate, answer, expire, run, start}
use tenon.Approvals.Honest.{Settled}
use tenon.Approvals.Preserved.{IsHonest}
use tenon.Approvals.Verdicts.{run-IsHonest}
use tenon.Approvals.Decided.{resumed_approved}
use tenon.Approvals.Waiting.{Below, in_all, asks_of, run-Accounts}

abbrev config : Config
config = record { mode = "ask"; timeout_s = 600 }

abbrev world : World
world = record {
  now = pos 1000;
  puts = true;
  env_puts = true;
  moves = λ id. true;
  env_moves = true;
  lists = true;
  reads = true;
  failure = "";
  guardian = true;
}

abbrev base : Queue
base = start empty (λ env. some empty)

abbrev calls : List (World × Call)
calls =
    (world, gate "blue" "push" "snap.export" 7)
    ∷ (world, request null "blue" "please" "" 8)
    ∷ (world, answer 1 "yes" (some "fine"))
    ∷ []

abbrev later : List (World × Call)
later = (world, answer 1 "no" none) ∷ (world, expire 2) ∷ []

base-IsHonest : IsHonest base
unfolding approval
base-IsHonest = record {
  fresh = λ id row there. absurd (ground (arith, there));
  apart = tt;
  held = λ id p there. absurd (ground (arith, there));
  told = tt;
}

answers_run :
    get_elem? (run config calls base).answers 0
    ≡ some (
      7,
      ok (record {
        id = some 1;
        status = approved;
        auto = false;
        note = some "fine";
        reason = "push";
      }),
    )
unfolding gate_request approval_request decide sweep_approvals approvals enqueue record_row
    put_approval is_pending env_approval approval_answer read_decision decide_approval approval
    move_env_row approval_mode
answers_run = refl

run_example : IsHonest (run config calls base)
run_example = run-IsHonest config calls base (tt, (tt, (tt, tt))) base-IsHonest

approved_row :
    (row : Approval) × Settled (run config calls base).store 1 row × (row.status ≡ approved)
unfolding gate_outcome
approved_row =
    resumed_approved config calls [] base "snap.export" 0 7 1
      (record { id = some 1; status = approved; auto = false; note = some "fine"; reason = "push" })
      (tt, (tt, (tt, tt))) base-IsHonest answers_run refl refl

resumed_example :
    (row : Approval) × Settled (run config later (run config calls base)).store 1 row
    × (row.status ≡ approved)
unfolding gate_outcome
resumed_example =
    resumed_approved config calls later base "snap.export" 0 7 1
      (record { id = some 1; status = approved; auto = false; note = some "fine"; reason = "push" })
      (tt, (tt, (tt, tt))) base-IsHonest answers_run refl refl

accounts_example :
    Below (run config calls base)
    × (in_all 7 (run config calls base) ≡ in_all 7 base + asks_of 7 calls)
accounts_example = run-Accounts 7 config calls base tt
