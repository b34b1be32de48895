-- ===== src/Relay/Rarest.antt =====
-- `pick` gives a pending task that as few peers hold as any other, and races only when none is left.
use botjim.Prelude.{
  ◌<◌, ◌≤◌, ◌≡◌, ap, arith, Bool, true, false, List, [], ◌∷◌, length, ltb, leb, Bool-cases, inl,
  inr, Option, none, some,
}
use botjim.Relay.TaskSet.{Task, same, has, Counted, at, same_self, same→eq}
use botjim.Relay.Picker.{Picker, rarest, keys, endgame, scarcest, pick}
use botjim.Relay.Runs.{Visits}

at-same : (t u : Task) (m : List Counted) → same t u ≡ true → at t m ≡ at u m
at-same t u m h = ap (λ x. at x m) (same→eq t u h)

rarest-least :
    (rarity : List Counted) (b : Task) (ts : List Task)
    → (has (rarest rarity b ts) (b ∷ ts) ≡ true)
      × ((u : Task) → has u (b ∷ ts) ≡ true → at (rarest rarity b ts) rarity ≤ at u rarity)
unfolding rarest has
rarest-least rarity b [] = (
  rw same_self,
  λ u h. let one : same u b ≡ true = ground arith in omega (arith, at-same u b rarity one),
)
rarest-least rarity b (t ∷ ts) = elim (Bool-cases (ltb (at t rarity) (at b rarity))) [
  | inl low ↦
      let (inside, least) = rarest-least rarity t ts in
      rw low (
        ground (arith, inside),
        λ u h. elim (Bool-cases (same u b)) [
          | inl e ↦
              let below = least t (rw same_self) in
              let lower : at t rarity < at b rarity = ground arith in
              omega (arith, at-same u b rarity e)
          | inr n ↦ least u (ground arith)
        ],
      )
  | inr high ↦
      let (inside, least) = rarest-least rarity b ts in
      rw high (
        ground (arith, inside),
        λ u h. elim (Bool-cases (same u t)) [
          | inl e ↦
              let below = least b (rw same_self) in
              let higher : at b rarity ≤ at t rarity = ground arith in
              omega (arith, at-same u t rarity e)
          | inr n ↦ least u (ground arith)
        ],
      )
]

scarcest-least :
    (rarity : List Counted) (p : Picker) (s : List Task) (t : Task)
    → (scarcest rarity p s).1 ≡ some (t, false)
    → (has t s ≡ true) × ((u : Task) → has u s ≡ true → at t rarity ≤ at u rarity)
unfolding scarcest
scarcest-least rarity p [] t e = absurd cc
scarcest-least rarity p (w ∷ ws) t e =
    let (inside, least) = rarest-least rarity w ws in
    let found : rarest rarity w ws ≡ t = cc e in
    (rw (← found) inside, λ u h. rw (← found) (least u h))

endgame-races : (p : Picker) (s : List Task) (t : Task) → (endgame p s).1 ≡ some (t, false) → ⊥
unfolding endgame
endgame-races p [] t e = cc
endgame-races p (w ∷ ws) t e = cc

-- A task that `pick` hands out as a first fetch is pending, and no pending task is held by fewer
-- peers, whatever the order in which Go ranges over its maps.
pub pick_rarest :
    (visit : List Task → List Task) (rarity : List Counted) (p : Picker) (t : Task)
    → Visits visit
    → (pick visit rarity p).1 ≡ some (t, false)
    → (has t p.pending ≡ true) × ((u : Task) → has u p.pending ≡ true → at t rarity ≤ at u rarity)
unfolding pick
pick_rarest visit rarity p t all e = elim (Bool-cases (leb p.total (length p.done))) [
  | inl full ↦ absurd (nothing full)
  | inr more ↦ elim (Bool-cases (ltb 0 (length p.pending))) [
    | inl left ↦
        let (inside, least) = scarcest-least rarity p (visit p.pending) t (rw (more, left) at e) in
        (rw all at inside, λ u h. least u (rw all h))
    | inr gone ↦ absurd (endgame-races p (visit (keys p.inflight)) t (rw (more, gone) at e))
  ]
]
  where
    nothing : leb p.total (length p.done) ≡ true → ⊥
    nothing full =
        let none_is : ◌≡◌ {A = Option (Task × Bool)} none (some (t, false)) = rw full at e in cc
