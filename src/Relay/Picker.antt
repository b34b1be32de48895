-- ===== src/Relay/Picker.antt =====
-- internal/relay/swarm_picker.go: which chunk a swarm joiner fetches next. The mutex makes each call
-- one step. A task's indices come from the artifact's spec and are never negative.
use botjim.Prelude.{
  ℕ, ◌+◌, ◌-◌, Bool, true, false, List, [], ◌∷◌, map, length, ltb, leb, if◌then◌else◌, Option, none,
  some,
}
use botjim.Relay.TaskSet.{Task, has, without, with_task, Counted, at, erase, put}

pub record Picker : Type 0 where
  pub pending : List Task
  pub inflight : List Counted
  pub done : List Task
  pub fails : List Counted
  pub total : ℕ
  pub max_fails : ℕ

-- The loop that fills `pending`.
unfoldable pub task_set : List Task → List Task
task_set [] = []
task_set (t ∷ ts) = with_task t (task_set ts)

unfoldable pub new_picker : List Task → Picker
new_picker tasks = record {
  pending = task_set tasks;
  inflight = [];
  done = [];
  fails = [];
  total = length tasks;
  max_fails = 6;
}

-- The loop over `pending` once it has a best task.
unfoldable pub rarest : List Counted → Task → List Task → Task
rarest rarity best [] = best
rarest rarity best (t ∷ ts) =
    rarest rarity (if ltb (at t rarity) (at best rarity) then t else best) ts

abbrev pub keys : List Counted → List Task
keys m = map (λ c. c.task) m

-- p.inflight[t]++
unfoldable pub started : Task → List Counted → List Counted
started t m = put t (at t m + 1) m

-- `if p.inflight[t] > 0 { ... }`
unfoldable pub released : Task → List Counted → List Counted
released t m =
    if ltb 0 (at t m) then (if leb (at t m - 1) 0 then erase t m else put t (at t m - 1) m) else m

-- The body of a `range` over `p.inflight`, which returns in its first round.
unfoldable pub endgame : Picker → List Task → Picker × Option (Task × Bool)
endgame p [] = (p, none)
endgame p (t ∷ ts) = (record p { inflight = started t p.inflight }, some (t, true))

-- `range` over `p.pending`, if it has an element.
unfoldable pub scarcest : List Counted → Picker → List Task → Picker × Option (Task × Bool)
scarcest rarity p [] = (p, none)
scarcest rarity p (t ∷ ts) =
    let best = rarest rarity t ts in
    (
      record p { pending = without best p.pending; inflight = started best p.inflight },
      some (best, false),
    )

-- `visit` is the order in which Go ranges over a map with these keys.
unfoldable pub pick :
    (List Task → List Task) → List Counted → Picker → Picker × Option (Task × Bool)
pick visit rarity p =
    if leb p.total (length p.done)
    then (p, none)
    else if ltb 0 (length p.pending)
    then scarcest rarity p (visit p.pending)
    else endgame p (visit (keys p.inflight))

unfoldable pub complete : Task → Picker → Picker × Bool
complete t p =
    let q = record p { inflight = released t p.inflight } in
    if has t p.done then (q, false) else (
      record q {
        done = with_task t p.done;
        pending = without t p.pending;
        fails = erase t p.fails;
      },
      true,
    )

unfoldable pub fail : Task → Picker → Picker × Bool
fail t p =
    let q = record p { inflight = released t p.inflight } in
    let failed = record q { fails = put t (at t p.fails + 1) p.fails } in
    if has t p.done
    then (q, false)
    else if leb p.max_fails (at t p.fails + 1)
    then (failed, true)
    else (record failed { pending = with_task t p.pending }, false)

unfoldable pub all_done : Picker → Bool
all_done p = leb p.total (length p.done)

-- total - len(done), which is not negative (Relay/Accounting).
unfoldable pub remaining : Picker → ℕ
remaining p = p.total - length p.done
