-- ===== src/Bus/Tests.antt =====
-- Runs of the bus at concrete envelopes, rings, rules and hubs.
use tenon.Prelude.{true, false, ◌≡◌, ◌↔◌, refl, some, All, String, String_eq, [], ◌∷◌, ◌++◌, arith}
use tenon.Prelude.Int.{pos}
use tenon.Text.{split_slash, contains_str, replace, replace_from, begins}
use tenon.Json.{Value, null, string, array, object, end, field, cons, nil}
use tenon.Bus.Level
use tenon.Bus.Envelope
use tenon.Bus.Envelope.{Envelope, is_expired}
use tenon.Bus.Filter
use tenon.Bus.Filter.{Filter, glob, matches}
use tenon.Bus.Filter.Glob.{Matches, glob-Matches}
use tenon.Bus.Filter.Meaning.{Accepts, matches-Accepts}
use tenon.Bus.Ring
use tenon.Bus.Ring.{Ring, Published, push_all}
use tenon.Bus.Ring.Loss.{Keeps, push_all-Keeps}
use tenon.Bus.Ring.Latest.{latest, push_all-latest}
use tenon.Bus.Secret
use tenon.Bus.Secret.{Rule, scan_envelope, contains, tags_contain}
use tenon.Bus.Secret.Nowhere.{Holds, Occurs, scan_envelope-clean}
use tenon.Bus.Tags

abbrev pub start_event : Envelope
start_event = record (Envelope.new (pos 5) "e1" "session/start" Level.info null) {
  env = some "blue";
}

abbrev pub done_event : Envelope
done_event = record (Envelope.new (pos 6) "e2" "task/done" Level.warn (string "ok")) {
  env = some "blue";
  durable = true;
}

abbrev pub start_message : Published
start_message = record { envelope = start_event; offset = 0 }

abbrev pub done_message : Published
done_message = record { envelope = done_event; offset = 4 }

abbrev blue_tasks : Filter
blue_tasks = record (Filter.scoped_to "blue") { topics = "task/**" ∷ [] }

glob_example :
    (glob "task/**/done" "task/a/b/done" ≡ true)
    ↔ Matches (split_slash "task/**/done") (split_slash "task/a/b/done")
glob_example = glob-Matches "task/**/done" "task/a/b/done"

matches_example : (matches blue_tasks done_event ≡ true) ↔ Accepts blue_tasks done_event
matches_example = matches-Accepts blue_tasks done_event

history_example :
    Keeps
      ([] ++ start_message ∷ start_message ∷ done_message ∷ [])
      (push_all (Ring.new 1 false) (start_message ∷ start_message ∷ done_message ∷ []))
unfolding Ring.new
history_example =
    push_all-Keeps [] (Ring.new 1 false) (start_message ∷ start_message ∷ done_message ∷ [])
      (record { plain = refl; roomy = omega arith; counted = omega arith; window = refl })

latest_example :
    (push_all (Ring.new 1 true) (start_message ∷ done_message ∷ start_message ∷ [])).queue
    ≡ latest (start_message ∷ done_message ∷ start_message ∷ [])
latest_example = push_all-latest 1 (start_message ∷ done_message ∷ start_message ∷ [])

abbrev token_rule : Rule
token_rule = record { name = "N"; value = "abc"; leak = Secret.mask }

abbrev leaking : Value
leaking = object (field "notes" (array (cons (string "xabcx") nil)) end)

abbrev masked_notes : Value
masked_notes = object (field "notes" (array (cons (string "x***N***x") nil)) end)

clean_example :
    (¬ Holds "abc" masked_notes)
    × All
        (λ (t : String × String). (¬ Occurs "abc" t.0) × (¬ Occurs "abc" t.1))
        (("k", "***N***") ∷ [])
unfolding scan_envelope Secret.blocked_by Secret.mask_all Secret.mask_all_tags Secret.contains
    Secret.mask_value contains_str replace replace_from begins Secret.tags_contain Secret.mask_tags
    Secret.collect Tags.insert
clean_example =
    scan_envelope-clean (token_rule ∷ []) 0 token_rule leaking masked_notes (("k", "abc") ∷ [])
      (("k", "***N***") ∷ []) refl (λ e. absurd (ground (arith, (String_eq.beq_iff "abc" "").1 e)))
      (refl, tt) refl
