-- ===== src/Relay/PickerTests.antt =====
-- The picker at concrete values.
use botjim.Prelude.{◌≤◌, ◌≡◌, ◌↔◌, refl, true, false, not, List, [], ◌∷◌, none, some}
use botjim.Relay.TaskSet.{Task, same, has, Counted, at, distinct}
use botjim.Relay.Picker.{Picker, new_picker, pick, complete, fail}
use botjim.Relay.Runs.{Visits}
use botjim.Relay.Progress.{
  Run, here, picked, completed, no_call, after_fail, pick-none_iff, completes_once,
}
use botjim.Relay.Rarest.{pick_rarest}

abbrev head : Task
head = record { file = 0; chunk = 0 }

abbrev tail : Task
tail = record { file = 0; chunk = 1 }

abbrev two : List Task
two = head ∷ tail ∷ []

-- Three peers hold the first chunk, one the second.
abbrev held_by : List Counted
held_by = record { task = head; times = 3 } ∷ record { task = tail; times = 1 } ∷ []

abbrev in_order : List Task → List Task
in_order s = s

in_order-Visits : Visits in_order
in_order-Visits t s = refl

two-distinct : distinct two ≡ true
unfolding distinct
two-distinct = refl

tail_known : has tail two ≡ true
unfolding has
tail_known = refl

tail_first : (pick in_order held_by (new_picker two)).1 ≡ some (tail, false)
unfolding pick new_picker botjim.Relay.Picker.task_set botjim.Relay.TaskSet.with_task
    botjim.Relay.Picker.scarcest botjim.Relay.Picker.rarest at
tail_first = refl

abbrev after_tail : Picker
after_tail = (complete tail (pick in_order held_by (new_picker two)).0).0

tail_done : Run two (new_picker two) after_tail
tail_done =
    completed (pick in_order held_by (new_picker two)).0 tail tail_known
      (picked (new_picker two) in_order held_by here)

pick-none_iff_example :
    ((pick in_order held_by after_tail).1 ≡ none)
    ↔ ((t : Task) → has t two ≡ true → has t after_tail.done ≡ true)
pick-none_iff_example =
    pick-none_iff two after_tail in_order held_by two-distinct tail_done in_order-Visits

-- The other chunk fails in between.
abbrev between : Picker
between = (fail head (complete tail (new_picker two)).0).0

completes_once_example :
    ((complete tail (new_picker two)).1 ≡ not (has tail (new_picker two).done))
    × ((complete tail between).1 ≡ false)
completes_once_example =
    completes_once (new_picker two) between tail
      (after_fail (complete tail (new_picker two)).0 head no_call)

pick_rarest_example :
    (has tail (new_picker two).pending ≡ true)
    × ((u : Task) → has u (new_picker two).pending ≡ true → at tail held_by ≤ at u held_by)
pick_rarest_example = pick_rarest in_order held_by (new_picker two) tail in_order-Visits tail_first
