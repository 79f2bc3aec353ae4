-- ===== src/Lifecycle/InterleavedSound.antt =====
-- The invariant of the reviews, in every interleaving.
use aerp.Prelude.{
  is_truthy, ℕ, zero, suc, ◌≡◌, refl, String, Option, none, some, List, [], ◌∷◌, All, All-append,
  Result, ok, err, Bool-cases, inl, inr,
}
use aerp.State.{ReviewState}
use aerp.Database.{PullRequest, failed}
use aerp.Encryption.{Fernet}
use aerp.Config.{Settings}
use aerp.Workflow.Nodes.{Services}
use aerp.Workflow.Run.{Engine, Outcome, completed, paused}
use aerp.Tasks.Store
use aerp.Workflow.Standing.{Standing, at_end, before}
use aerp.Tasks.Review
use aerp.Tasks.Review.{System, Task}
use aerp.Tasks.Phases
use aerp.Tasks.Phases.{
  Phase, waiting, refused, granted, working, ran, recorded, notifying, failing, over, with_token,
}
use aerp.Reviews.{is_owned}
use aerp.Reviews.Approve
use aerp.Reviews.Approving
use aerp.Reviews.Approving.{Approval, asked, marked, authorised, resumed, closed, answered}
use package.aerp.Lifecycle.Sound.{AllSound, change_review-AllSound}
use package.aerp.Lifecycle.TaskSound.{IsHigh, IsHighResult, set_status-KeepsSound, invoke-IsHigh}
use package.aerp.Lifecycle.Invariant
use package.aerp.Lifecycle.Interleaved.{
  Activity, task, approval, Cluster, remove, next, move, Move, requested, delivered, approved,
  moved, killed, Moves, stay, then,
}

-- A task that is to write `paused_for_review` has a consensus above the gate.
abbrev IsReadyAt : Phase → Type 0
IsReadyAt waiting = Unit
IsReadyAt refused = Unit
IsReadyAt (granted token) = Unit
IsReadyAt (working token) = Unit
IsReadyAt (ran o) = IsHigh o
IsReadyAt (recorded o) = IsHigh o
IsReadyAt (notifying final) = Unit
IsReadyAt (failing e) = Unit
IsReadyAt (over r) = Unit

abbrev IsReady : Activity → Type 0
IsReady (task t retries p) = IsReadyAt p
IsReady (approval review_id user_id a) = Unit

-- The stored reviews are sound, and so is what the running tasks are to write.
abbrev pub IsSafe : {v : Services} → Cluster v → Type 0
IsSafe c = AllSound c.system.db × All IsReady c.running

remove-IsReady : (n : ℕ) (rest : List Activity) → All IsReady rest → All IsReady (remove n rest)
unfolding remove
remove-IsReady n [] h = tt
remove-IsReady zero (a ∷ rest) h = h.1
remove-IsReady (suc n) (a ∷ rest) h = (h.0, remove-IsReady n rest h.1)

with_token-IsReady : (r : Result (Option String)) → IsReadyAt (with_token r)
with_token-IsReady (err e) = tt
with_token-IsReady (ok none) = tt
with_token-IsReady (ok (some token)) = elim (Bool-cases (is_truthy token)) [
  | inl e ↦ rw e tt
  | inr e ↦ rw e tt
]

module _ (v : Services) (fernet : Fernet) (uuid : ℕ → String) where
  module _ (engine : Engine) (now : ℕ) where
    abbrev IsReadyAfter : Phase × System v → Type 0
    IsReadyAfter (p, s) = AllSound s.db × IsReadyAt p

    returned-IsReady :
        (t : Task) (r : Result Outcome) (s : System v)
        → IsHighResult r
        → AllSound s.db
        → IsReadyAfter (Phases.returned v engine fernet uuid now r s)
    returned-IsReady t (ok o) s high h = (h, high)
    returned-IsReady t (err e) s high h = (h, tt)

    setup_env-same :
        (user_id : Option String) (s : System v)
        → (Review.setup_env v engine fernet uuid now user_id s).1 ≡ s
    unfolding Review.setup_env
    setup_env-same none s = refl
    setup_env-same (some user_id) s = refl

    record_end-IsReady :
        (t : Task) (final : ReviewState) (e : Option String) (s : System v)
        → AllSound s.db
        → IsReadyAfter (Phases.record_end v engine fernet uuid now t final e s)
    unfolding Phases.record_end Store.persist_findings
    record_end-IsReady t final none s h = (h, tt)
    record_end-IsReady t final (some e) s h = (
      (set_status-KeepsSound v engine fernet uuid now t.review_id failed (some e) none
            (λ pr. tt)).at
          s h,
      tt,
    )

    advance-IsReady :
        (t : Task) (retries : ℕ) (p : Phase) (s : System v)
        → IsReadyAt p
        → AllSound s.db
        → IsReadyAfter (Phases.advance v engine fernet uuid now t retries p s)
    unfolding Phases.advance Review.run_langgraph Store.persist_findings
        Store.update_review_complete Store.set_complete Review.set_status Store.update_review_status
        Store.set_status
    advance-IsReady t retries waiting s ready h = (
      rw (setup_env-same t.user_id s) h,
      with_token-IsReady (Review.setup_env v engine fernet uuid now t.user_id s).0,
    )
    advance-IsReady t retries refused s ready h =
        (change_review-AllSound t.review_id _ s.db (λ pr g. tt) h, tt)
    advance-IsReady t retries (granted token) s ready h =
        (change_review-AllSound t.review_id _ s.db (λ pr g. tt) h, tt)
    advance-IsReady t retries (working token) s ready h =
        let (r, s') = Review.run_langgraph v engine fernet uuid now t (some token) s in
        returned-IsReady t r s'
          (invoke-IsHigh v engine fernet uuid now (some token)
            (Review.start_state v engine fernet uuid now t s.checkpoints) s.world r refl)
          h
    advance-IsReady t retries (ran (paused final)) s ready h = (h, ready)
    advance-IsReady t retries (ran (completed final)) s ready h = record_end-IsReady t final _ s h
    advance-IsReady t retries (recorded (paused final)) s (c, is_c, high) h = (
      change_review-AllSound t.review_id _ s.db (λ pr g. (c.risk_score, rw is_c refl, high)) h,
      tt,
    )
    advance-IsReady t retries (recorded (completed final)) s ready h = (
      change_review-AllSound t.review_id _ s.db (λ pr g. ((_, refl), (_, refl), (_, refl))) h,
      tt,
    )
    advance-IsReady t retries (notifying final) s ready h = (h, tt)
    advance-IsReady t retries (failing e) s ready h =
        (change_review-AllSound t.review_id _ s.db (λ pr g. tt) h, tt)
    advance-IsReady t retries (over r) s ready h = (h, tt)

    mark-AllSound :
        (review_id user_id : String) (o : Option PullRequest) (s : System v)
        → AllSound s.db
        → AllSound (Approving.mark v engine fernet now review_id user_id o s).1.db
    unfolding Approving.mark Approve.mark_resuming
    mark-AllSound review_id user_id none s h = h
    mark-AllSound review_id user_id (some pr) s h =
        elim (Bool-cases (is_owned user_id pr.user_id)) [
          | inl e ↦
              rw e (change_review-AllSound review_id (Approve.set_resuming now) s.db (λ x g. tt) h)
          | inr e ↦ rw e h
        ]

    resumed-AllSound :
        (review_id user_id : String) (r : Result Outcome) (s : System v)
        → AllSound s.db
        → AllSound (Approving.returned v engine fernet now review_id user_id r s).1.db
    resumed-AllSound review_id user_id (ok final) s h = h
    resumed-AllSound review_id user_id (err e) s h = h

    resume-AllSound :
        (review_id user_id : String) (token : Option String) (o : Option Standing) (s : System v)
        → AllSound s.db
        → AllSound (Approving.resume v engine fernet now review_id user_id token o s).1.db
    unfolding Approving.resume Approve.resume_run
    resume-AllSound review_id user_id token none s h = h
    resume-AllSound review_id user_id token (some (at_end final)) s h = h
    resume-AllSound review_id user_id token (some (before stage state)) s h =
        let (r, s') = Approve.resume_run v engine fernet now review_id token stage state s in
        resumed-AllSound review_id user_id r s' h

    approval-AllSound :
        (review_id user_id : String) (a : Approval) (s : System v)
        → AllSound s.db
        → AllSound (Approving.advance v engine fernet now review_id user_id a s).1.db
    unfolding Approving.advance Approve.find_token
    approval-AllSound review_id user_id asked s h = mark-AllSound review_id user_id _ s h
    approval-AllSound review_id user_id marked s h = h
    approval-AllSound review_id user_id (authorised token) s h =
        resume-AllSound review_id user_id token _ s h
    approval-AllSound review_id user_id (resumed final) s h =
        change_review-AllSound review_id (Approve.set_approved now final) s.db
          (λ pr g. ((_, refl), (_, refl), (_, refl))) h
    approval-AllSound review_id user_id closed s h = h
    approval-AllSound review_id user_id (answered r) s h = h

    next-IsReady :
        (a : Activity) (s : System v)
        → IsReady a
        → AllSound s.db
        → (let (a', s') = next v fernet uuid engine now a s in AllSound s'.db × IsReady a')
    unfolding next
    next-IsReady (task t retries p) s ready h = advance-IsReady t retries p s ready h
    next-IsReady (approval review_id user_id a) s ready h =
        (approval-AllSound review_id user_id a s h, tt)

    move-IsReady :
        (n : ℕ) (rest : List Activity) (s : System v)
        → All IsReady rest
        → AllSound s.db
        → (let (rest', s') = move v fernet uuid engine now n rest s in
            AllSound s'.db × All IsReady rest')
    unfolding move
    move-IsReady n [] s ready h = (h, tt)
    move-IsReady zero (a ∷ rest) s ready h =
        let (h', ready') = next-IsReady a s ready.0 h in (h', (ready', ready.1))
    move-IsReady (suc n) (a ∷ rest) s ready h =
        let (h', ready') = move-IsReady n rest s ready.1 h in (h', (ready.0, ready'))

  module _ (settings : Settings) where
    Move-IsSafe : (c d : Cluster v) → Move v fernet uuid settings c d → IsSafe c → IsSafe d
    Move-IsSafe c _ (requested {s = s} step) h =
        (Invariant.Step-AllSound v settings fernet uuid c.system s step h.0, h.1)
    Move-IsSafe c _ (delivered t retries) h =
        (h.0, All-append IsReady c.running (task t retries waiting ∷ []) h.1 (tt, tt))
    Move-IsSafe c _ (approved review_id user_id) h =
        (h.0, All-append IsReady c.running (approval review_id user_id asked ∷ []) h.1 (tt, tt))
    Move-IsSafe c _ (moved engine now n) h = move-IsReady engine now n c.running c.system h.1 h.0
    Move-IsSafe c _ (killed n) h = (h.0, remove-IsReady n c.running h.1)

    -- Where executions of the review task and approvals go a transaction at a time, in any
    -- interleaving with each other and with whole requests, and may be killed between two
    -- transactions, each stored review that is paused keeps having a risk score above 40, each
    -- complete one a risk score, a recommendation and a time of completion, and each execution
    -- that is about to write a pause a consensus above 40.
    pub Moves-IsSafe : (c d : Cluster v) → Moves v fernet uuid settings c d → IsSafe c → IsSafe d
    Moves-IsSafe c _ stay h = h
    Moves-IsSafe c _ (then {d = d} r step) h = Move-IsSafe d _ step (Moves-IsSafe c d r h)
