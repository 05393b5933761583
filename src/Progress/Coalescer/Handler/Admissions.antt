-- ===== src/Progress/Coalescer/Handler/Admissions.antt =====
-- The admissions that a coalescer counts are those of the handlers that are admitted.
use emby_panel.Prelude.{
  ℕ, zero, suc, ◌+◌, ◌-◌, ◌≡◌, refl, ◌∙◌, Bool, List, [], ◌∷◌, arith, String, Bool-cases,
  Option-cases, inl, inr,
}
use emby_panel.Progress.Global.{ProgressGlobalRuntime}
use emby_panel.Progress.Coalescer.Entry.{Batch, Config}
use emby_panel.Progress.Coalescer.Calls.{
  Coalescer, Outcome, new_progress_coalescer, put_entry, enqueue_update, enqueue_barrier,
  mark_batch_ready, cleanup_idle,
}
use emby_panel.Progress.Coalescer.Completion.{
  begin_progress_ingress, finish_dispatch, begin_drain, cancel_drain,
}
use emby_panel.Progress.Coalescer.Handler.{
  Report, Phase, admitted, starting, awaits_answer, awaits_barrier, serves_stop, served_ordinary,
  answered_unavailable, gave_nothing, gave_outcome, fall_back, enqueue, await_answer, await_barrier,
  step,
}
use emby_panel.Progress.Coalescer.Handler.Unchanged.{
  begin_drain-admissions, cancel_barrier-admissions, end_progress_ingress-admissions,
  enqueue_barrier-admissions, enqueue_update-admissions, finish_dispatch-admissions,
  release_barrier-admissions, resolve_canceled_waiter-admissions,
}

-- The handlers of a site, and its coalescer.
pub record Site : Type 0 where
  pub coalescer : Coalescer
  pub handlers : List (Report × Phase)

abbrev is_admitted : Phase → ℕ
is_admitted admitted = 1
is_admitted phase = 0

pub count_admitted : List (Report × Phase) → ℕ
count_admitted [] = 0
count_admitted ((r, phase) ∷ rest) = is_admitted phase + count_admitted rest

-- The handler at a place takes its next step.
unfoldable pub step_at : ℕ → ℕ → Bool → Coalescer → List (Report × Phase) → Site
step_at place now gone c [] = record { coalescer = c; handlers = [] }
step_at zero now gone c ((r, phase) ∷ rest) =
    let (d, next_phase) = step r now gone c phase in
    record { coalescer = d; handlers = (r, next_phase) ∷ rest }
step_at (suc place) now gone c ((r, phase) ∷ rest) =
    let s = step_at place now gone c rest in
    record { coalescer = s.coalescer; handlers = (r, phase) ∷ s.handlers }

fall_back-admissions : (c : Coalescer) → (fall_back c).0.admissions ≡ c.admissions - 1
unfolding fall_back
fall_back-admissions c = end_progress_ingress-admissions c

fall_back_done : (c : Coalescer) → is_admitted (fall_back c).1 ≡ 0
unfolding fall_back
fall_back_done c = ground arith

await_answer-admissions :
    (key : String) (n waiter now : ℕ) (gone : Bool) (c : Coalescer)
    → ((await_answer key n waiter now gone c).0.admissions ≡ c.admissions)
      × (is_admitted (await_answer key n waiter now gone c).1 ≡ 0)
unfolding await_answer
await_answer-admissions key n waiter now gone c =
    ground (arith, resolve_canceled_waiter-admissions c key n waiter now)

await_barrier-admissions :
    (key : String) (n barrier now : ℕ) (gone : Bool) (c : Coalescer)
    → ((await_barrier key n barrier now gone c).0.admissions ≡ c.admissions)
      × (is_admitted (await_barrier key n barrier now gone c).1 ≡ 0)
unfolding await_barrier
await_barrier-admissions key n barrier now gone c =
    ground (arith, cancel_barrier-admissions c key n barrier now)

enqueue-admissions :
    (r : Report) (key : String) (now : ℕ) (c : Coalescer)
    → ((enqueue r key now c).0.admissions ≡ c.admissions - 1)
      × (is_admitted (enqueue r key now c).1 ≡ 0)
unfolding enqueue
enqueue-admissions r key now c = elim (Bool-cases r.is_stopped) [
  | inl kind ↦
      let d = (enqueue_barrier c key now).0 in
      let same = enqueue_barrier-admissions c key now in
      elim (Option-cases (enqueue_barrier c key now).1) [
        | inl refused ↦
            rw (enqueue, kind, refused)
              (omega (arith, same, fall_back-admissions (d)), fall_back_done (d))
        | inr ((n, waiter), taken) ↦
            rw (enqueue, kind, taken) (omega (arith, same, end_progress_ingress-admissions d), refl)
      ]
  | inr kind ↦
      let d = (enqueue_update c key r.request now).0 in
      let same = enqueue_update-admissions c key r.request now in
      elim (Option-cases (enqueue_update c key r.request now).1) [
        | inl refused ↦
            rw (enqueue, kind, refused)
              (
                omega (
                  arith,
                  same,
                  fall_back-admissions (record d { released = r.request ∷ d.released }),
                ),
                fall_back_done (record d { released = r.request ∷ d.released }),
              )
        | inr ((n, waiter), taken) ↦
            rw (enqueue, kind, taken) (omega (arith, same, end_progress_ingress-admissions d), refl)
      ]
]

-- A step takes from the admissions what it takes from the admitted handlers.
step-admissions :
    (r : Report) (now : ℕ) (gone : Bool) (c : Coalescer) (phase : Phase) (others : ℕ)
    → c.admissions ≡ is_admitted phase + others
    → (step r now gone c phase).0.admissions ≡ is_admitted (step r now gone c phase).1 + others
unfolding step fall_back enqueue await_answer await_barrier begin_progress_ingress
step-admissions r now gone c starting others h = ground (arith, h)
step-admissions r now gone c admitted others h = elim (Option-cases r.key) [
  | inl no_key ↦ rw (step, no_key) (omega (arith, h, fall_back-admissions c, fall_back_done c))
  | inr (key, known) ↦
      let (taken, done) = enqueue-admissions r key now c in
      rw (step, known) (omega (arith, h, taken, done))
]
step-admissions r now gone c (awaits_answer n waiter) others h = elim (Option-cases r.key) [
  | inl no_key ↦ rw (step, no_key) h
  | inr (key, known) ↦
      let (same, done) = await_answer-admissions key n waiter now gone c in
      rw (step, known) (omega (arith, h, same, done))
]
step-admissions r now gone c (awaits_barrier n barrier) others h = elim (Option-cases r.key) [
  | inl no_key ↦ rw (step, no_key) h
  | inr (key, known) ↦
      let (same, done) = await_barrier-admissions key n barrier now gone c in
      rw (step, known) (omega (arith, h, same, done))
]
step-admissions r now gone c (serves_stop n barrier) others h = elim (Option-cases r.key) [
  | inl no_key ↦ rw (step, no_key) h
  | inr (key, known) ↦ ground (arith, release_barrier-admissions c key n barrier now)
]
step-admissions r now gone c served_ordinary others h = h
step-admissions r now gone c answered_unavailable others h = h
step-admissions r now gone c gave_nothing others h = h
step-admissions r now gone c (gave_outcome o) others h = h

step_at-admissions :
    (place now : ℕ) (gone : Bool) (c : Coalescer) (handlers : List (Report × Phase)) (others : ℕ)
    → c.admissions ≡ count_admitted handlers + others
    → (step_at place now gone c handlers).coalescer.admissions
      ≡ count_admitted (step_at place now gone c handlers).handlers + others
unfolding step_at count_admitted
step_at-admissions place now gone c [] others h = h
step_at-admissions zero now gone c ((r, phase) ∷ rest) others h =
    let after_step =
      step-admissions r now gone c phase (count_admitted rest + others) (omega (arith, h)) in
    omega (arith, after_step)
step_at-admissions (suc place) now gone c ((r, phase) ∷ rest) others h =
    let after_step =
      step_at-admissions place now gone c rest (is_admitted phase + others) (omega (arith, h)) in
    omega (arith, after_step)

-- The calls that are not made by handlers: timers, answers, cleaning up and draining.
pub data Event : Type 0 where
  fires_event : String → ℕ → ℕ → ℕ → Event
  answers_event : String → ℕ → Batch → Outcome → ℕ → Event
  cleans_event cancels_drain_event : ℕ → Event
  begins_drain_event : Event

unfoldable pub happen : Event → Coalescer → Coalescer
happen (fires_event key n batch generation) c = mark_batch_ready c key n batch generation
happen (answers_event key n b outcome now) c = finish_dispatch c key n b outcome now
happen (cleans_event now) c = cleanup_idle now c
happen (cancels_drain_event n) c = cancel_drain c n
happen begins_drain_event c = (begin_drain c).0

happen-admissions : (x : Event) (c : Coalescer) → (happen x c).admissions ≡ c.admissions
unfolding happen mark_batch_ready put_entry cleanup_idle cancel_drain begin_drain
happen-admissions (fires_event key n batch generation) c = ground arith
happen-admissions (answers_event key n b outcome now) c =
    finish_dispatch-admissions c key n b outcome now
happen-admissions (cleans_event now) c = ground arith
happen-admissions (cancels_drain_event n) c = ground arith
happen-admissions begins_drain_event c = begin_drain-admissions c

pub data SiteStep (s : Site) : Site → Type 0 where
  comes : (r : Report) → SiteStep s (record s { handlers = (r, starting) ∷ s.handlers })
  moves : (place now : ℕ) (gone : Bool) → SiteStep s (step_at place now gone s.coalescer s.handlers)
  happens : (x : Event) → SiteStep s (record s { coalescer = happen x s.coalescer })

pub data SiteReach (s : Site) : Site → Type 0 where
  here : SiteReach s s
  next : {t u : Site} → SiteReach s t → SiteStep t u → SiteReach s u

SiteReach-admissions :
    {s t : Site}
    → SiteReach s t
    → s.coalescer.admissions ≡ count_admitted s.handlers
    → t.coalescer.admissions ≡ count_admitted t.handlers
unfolding count_admitted
SiteReach-admissions here h = h
SiteReach-admissions (next r (comes report)) h = omega (arith, SiteReach-admissions r h)
SiteReach-admissions (next {t} r (moves place now gone)) h = omega (
  arith,
  step_at-admissions place now gone t.coalescer t.handlers 0
      (omega (arith, SiteReach-admissions r h)),
)
SiteReach-admissions (next {t} r (happens x)) h =
    happen-admissions x t.coalescer ∙ SiteReach-admissions r h

abbrev pub new_site : ProgressGlobalRuntime → Config → Site
new_site global config = record { coalescer = new_progress_coalescer global config; handlers = [] }

-- However the requests of a site run, and whatever happens between their steps, its coalescer
-- counts exactly the handlers that are admitted and have not enqueued or given up yet: each
-- admission is ended once, on every path of the handler.
pub admissions_are_handlers :
    (global : ProgressGlobalRuntime) (config : Config) {s : Site}
    → SiteReach (new_site global config) s
    → s.coalescer.admissions ≡ count_admitted s.handlers
unfolding new_progress_coalescer count_admitted
admissions_are_handlers global config r = SiteReach-admissions r refl
