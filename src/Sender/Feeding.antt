-- ===== src/Sender/Feeding.antt =====
-- The scheduler's loop over a file queues the chunks that the bitmap lacks, in order, as far as the channel has room.
use mathlib.Core.Path.{subst}
use botjim.Prelude.{
  ℕ, zero, suc, ◌+◌, ◌-◌, ◌≤◌, ◌≡◌, ◌⊎◌, arith, Bool, true, false, List, [], ◌∷◌, ◌++◌,
  append_assoc, append-nil, length, length-append, if◌then◌else◌, Bool-cases, inl, inr, sym, ap,
  ◌∙◌, refl,
}
use botjim.Sender.{ChunkTask, TxFile}
use botjim.Sender.Scheduler.{Feed, feed_send, feed_if, feed_one, feed_loop, feed_file, has_bit}

-- The tasks of the chunks from `a` on, `n` of them looked at, that `skip` does not name.
unfoldable pub missing : ℕ → (ℕ → Bool) → ℕ → ℕ → List ChunkTask
missing id skip a zero = []
missing id skip a (suc n) =
    let rest = missing id skip (a + 1) n in
    if skip a then rest else record { file_id = id; idx = a } ∷ rest

pub missing-append :
    (id : ℕ) (skip : ℕ → Bool) (a m n : ℕ)
    → missing id skip a (m + n) ≡ missing id skip a m ++ missing id skip (a + m) n
unfolding missing
missing-append id skip a zero n =
    let all : 0 + n ≡ n = omega arith in
    let here : a ≡ a + 0 = omega arith in
    ap (λ k. missing id skip a k) all ∙ ap (λ b. missing id skip b n) here
missing-append id skip a (suc m) n =
    let ih = missing-append id skip (a + 1) m n in
    let next : a + 1 + m ≡ a + suc m = omega arith in
    let ih' : missing id skip (a + 1) (m + n)
        ≡ missing id skip (a + 1) m ++ missing id skip (a + suc m) n =
      ih ∙ ap (λ b. missing id skip (a + 1) m ++ missing id skip b n) next in
    let up : suc m + n ≡ suc (m + n) = omega arith in
    let whole : missing id skip a (suc (m + n))
        ≡ missing id skip a (suc m) ++ missing id skip (a + suc m) n =
      elim (Bool-cases (skip a)) [
        | inl e ↦ rw e ih'
        | inr d ↦ rw d (ap (λ ts. record { file_id = id; idx = a } ∷ ts) ih')
      ] in
    ap (λ k. missing id skip a k) up ∙ whole

-- What `m` rounds that were not refused have done.
pub record Fed (id : ℕ) (skip : ℕ → Bool) (v w : Feed) (m : ℕ) : Type 0 where
  pub next : w.next_task ≡ v.next_task + m
  pub tasks : w.tasks ≡ v.tasks ++ missing id skip v.next_task m
  pub held : w.inflight ≡ v.inflight + length (missing id skip v.next_task m)
  pub room : w.room + length (missing id skip v.next_task m) ≡ v.room

Fed-none :
    (id : ℕ) (skip : ℕ → Bool) (v w : Feed)
    → w.next_task ≡ v.next_task
    → w.tasks ≡ v.tasks
    → w.inflight ≡ v.inflight
    → w.room ≡ v.room
    → Fed id skip v w 0
unfolding missing
Fed-none id skip v w n t h r = record {
  next = omega arith;
  tasks = t ∙ sym (append-nil v.tasks);
  held = omega arith;
  room = omega arith;
}

Fed-append :
    (id : ℕ) (skip : ℕ → Bool) (v u w : Feed) (m n : ℕ)
    → Fed id skip v u m
    → Fed id skip u w n
    → Fed id skip v w (m + n)
Fed-append id skip v u w m n f g =
    let on = missing-append id skip v.next_task m n in
    let here : missing id skip u.next_task n ≡ missing id skip (v.next_task + m) n =
      ap (λ a. missing id skip a n) f.next in
    let sizes : length (missing id skip v.next_task (m + n))
        ≡ length (missing id skip v.next_task m) + length (missing id skip u.next_task n) =
      ap length on
      ∙ length-append (missing id skip v.next_task m) _
      ∙ ap (λ ts. length (missing id skip v.next_task m) + length ts) (sym here) in
    record {
      next = omega (arith, f.next, g.next);
      tasks =
          g.tasks
          ∙ ap (λ ts. ts ++ missing id skip u.next_task n) f.tasks
          ∙ append_assoc v.tasks (missing id skip v.next_task m) (missing id skip u.next_task n)
          ∙ ap (λ ts. v.tasks ++ (missing id skip v.next_task m ++ ts)) here
          ∙ ap (λ ts. v.tasks ++ ts) (sym on);
      held = omega (arith, f.held, g.held);
      room = omega (arith, f.room, g.room);
    }

-- A round goes on with the next chunk, or finds the channel full and stays.
abbrev Round : ℕ → (ℕ → Bool) → Feed → Feed → Type 0
Round id skip v w =
    (Fed id skip v w 1 × (w.full ≡ false)) ⊎ (Fed id skip v w 0 × (w.full ≡ true) × (w.room ≡ 0))

feed_send-Round :
    (id room : ℕ) (skip : ℕ → Bool) (v : Feed)
    → v.room ≡ room
    → v.full ≡ false
    → skip v.next_task ≡ false
    → Round id skip v (feed_send id room v)
unfolding feed_send missing
feed_send-Round id zero skip v r open_ s = inr (Fed-none id skip v _ refl refl refl refl, refl, r)
feed_send-Round id (suc room) skip v r open_ s =
    inl
      (record { next = refl; tasks = rw s refl; held = rw s refl; room = rw s (omega arith) }, refl)

feed_if-Round :
    (over there : Bool) (id : ℕ) (skip : ℕ → Bool) (v : Feed)
    → v.full ≡ over
    → skip v.next_task ≡ there
    → over ≡ false
    → Round id skip v (feed_if over there id v)
unfolding feed_if missing
feed_if-Round true there id skip v f s o = absurd cc
feed_if-Round false true id skip v f s o = inl (
  record {
    next = refl;
    tasks = rw s (sym (append-nil v.tasks));
    held = rw s (omega arith);
    room = rw s (omega arith);
  },
  f,
)
feed_if-Round false false id skip v f s o = feed_send-Round id v.room skip v refl f s

feed_one-Round :
    (id : ℕ) (skip : ℕ → Bool) (v : Feed) → v.full ≡ false → Round id skip v (feed_one id skip v)
unfolding feed_one
feed_one-Round id skip v f = feed_if-Round v.full (skip v.next_task) id skip v refl refl f

feed_if_full : (over there : Bool) (id : ℕ) (v : Feed) → over ≡ true → feed_if over there id v ≡ v
unfolding feed_if
feed_if_full true there id v o = refl
feed_if_full false there id v o = absurd cc

feed_loop_full :
    (id : ℕ) (skip : ℕ → Bool) (n : ℕ) (v : Feed) → v.full ≡ true → feed_loop id skip n v ≡ v
unfolding feed_loop feed_one
feed_loop_full id skip zero v f = refl
feed_loop_full id skip (suc n) v f =
    let here = feed_if_full v.full (skip v.next_task) id v f in
    ap (λ u. feed_loop id skip n u) here ∙ feed_loop_full id skip n v f

-- The loop looks at every chunk, or stops at the one that the channel has no room for.
abbrev pub Looped : ℕ → (ℕ → Bool) → Feed → Feed → ℕ → Type 0
Looped id skip v w n =
    (m : ℕ) × (m ≤ n)
    × Fed id skip v w m
    × (((w.full ≡ false) × (m ≡ n)) ⊎ ((w.full ≡ true) × (w.room ≡ 0)))

pub feed_loop-Looped :
    (id : ℕ) (skip : ℕ → Bool) (n : ℕ) (v : Feed)
    → v.full ≡ false
    → Looped id skip v (feed_loop id skip n v) n
unfolding feed_loop
feed_loop-Looped id skip zero v f =
    (0, omega arith, Fed-none id skip v v refl refl refl refl, inl (f, refl))
feed_loop-Looped id skip (suc n) v f =
    go (feed_one id skip v) (feed_one-Round id skip v f)
      (λ e. feed_loop-Looped id skip n (feed_one id skip v) e)
  where
    go :
        (u : Feed)
        → Round id skip v u
        → (u.full ≡ false → Looped id skip u (feed_loop id skip n u) n)
        → Looped id skip v (feed_loop id skip n u) (suc n)
    go u (inl (one, e)) more =
        let rest = more e in
        (
          1 + rest.0,
          omega (arith, rest.1),
          Fed-append id skip v u _ 1 rest.0 one rest.2,
          elim rest.3 [ inl h ↦ inl (h.0, omega (arith, h.1)) | inr h ↦ inr h ],
        )
    go u (inr (none_, e, r)) more =
        let same = feed_loop_full id skip n u e in
        (
          0,
          omega arith,
          subst (λ w. Fed id skip v w 0) (sym same) none_,
          inr (ap (λ w. w.full) same ∙ e, ap (λ w. w.room) same ∙ r),
        )

-- A round of the scheduler on a file, its mark within the number of its chunks: the tasks it queues are those of the
-- chunks between the old mark and the new that the bitmap lacks, in order and each once; and it comes to the end of
-- the file, or it has used all the room of the channel.
pub feed_file-exact :
    (room : ℕ) (f : TxFile)
    → f.next_task ≤ f.count
    → ((feed_file room f).tasks
        ≡ missing f.entry.id
            (has_bit f.have)
            f.next_task
            ((feed_file room f).next_task - f.next_task))
      × (f.next_task ≤ (feed_file room f).next_task)
      × ((feed_file room f).next_task ≤ f.count)
      × ((((feed_file room f).full ≡ false) × ((feed_file room f).next_task ≡ f.count))
          ⊎ (((feed_file room f).full ≡ true) × (length (feed_file room f).tasks ≡ room)))
unfolding feed_file
feed_file-exact room f h =
    let l =
      feed_loop-Looped f.entry.id (has_bit f.have) (f.count - f.next_task)
        (record {
          next_task = f.next_task;
          inflight = f.inflight;
          room = room;
          tasks = [];
          full = false;
        })
        refl in
    let made = l.2 in
    let m_is : (feed_file room f).next_task - f.next_task ≡ l.0 = omega (arith, made.next) in
    (
      made.tasks ∙ ap (λ m. missing f.entry.id (has_bit f.have) f.next_task m) (sym m_is),
      omega (arith, made.next),
      omega (arith, made.next, l.1),
      elim l.3 [
        | inl e ↦ inl (e.0, omega (arith, made.next, e.1))
        | inr e ↦ inr (e.0, ap length made.tasks ∙ omega (arith, made.room, e.1))
      ],
    )
