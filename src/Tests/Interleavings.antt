-- ===== src/Tests/Interleavings.antt =====
-- Tasks and approvals a transaction at a time, at concrete data.
use aerp.Lifecycle.Cancelled.{IsCancelled}
use aerp.Lifecycle.StaysCancelled.{Moves-IsCancelled}
use aerp.Reviews.Cancel.{set_cancelled}
use aerp.Prelude.{refl, [], ◌∷◌}
use aerp.Workflow.Run.{completed}
use aerp.Tasks.Review.{System, Task}
use aerp.Tasks.Phases.{waiting, working, recorded}
use aerp.Lifecycle.{was_cancelled}
use aerp.Lifecycle.Interleaved.{Cluster, task, move_in, requested, moved, stay, then}
use aerp.Lifecycle.InterleavedSound.{IsSafe, Moves-IsSafe}
use aerp.Lifecycle.Overwritten.{EndsFrom, cancel_review-overwritten}
use aerp.Reviews.Cancel.{cancel_review}
use aerp.Tests.Engine.{in_order}
use aerp.Tests.Data.{collected_review}
use aerp.Tests.Accounts.{fernet, uuid, queued_review}
use aerp.Tests.Storage
use aerp.Tests.Storage.{risky}
use aerp.Tests.Artifacts.{connected}
use aerp.Tests.Reviews.{settings}

abbrev at_rest : Cluster risky
at_rest = record { system = connected; running = [] }

-- A task at work on its review.
abbrev at_work : Cluster risky
at_work = record { system = connected; running = task Storage.task 0 (working "secret") ∷ [] }

abbrev cancelled_at_work : Cluster risky
cancelled_at_work = record at_work {
  system = record connected { db = (cancel_review 1100 "r1" "u1" connected.db).1 };
}

-- The review is cancelled while the task is at work, and the task goes on.
Moves-IsSafe_example : IsSafe (move_in risky fernet uuid in_order 1200 0 cancelled_at_work)
Moves-IsSafe_example =
    Moves-IsSafe risky fernet uuid settings at_work _
      (then (then stay (requested (was_cancelled 1100 "r1" "u1"))) (moved in_order 1200 0))
      ((tt, tt), (tt, tt))

cancel_review-overwritten_example :
    EndsFrom risky in_order fernet uuid 1200 Storage.task 0
      (recorded (completed collected_review))
      (record connected { db = (cancel_review 1100 "r1" "u1" connected.db).1 })
cancel_review-overwritten_example =
    cancel_review-overwritten risky in_order fernet uuid 1200 Storage.task 0
      (recorded (completed collected_review)) connected 1100 "u1" queued_review refl refl refl

abbrev stopped : System risky
stopped = record connected { db = (cancel_review 1100 "r1" "u1" connected.db).1 }

abbrev other_task : Task
other_task = record Storage.task { review_id = "r2" }

-- The review r1 is cancelled, and a task of another one is waiting.
abbrev cancelled_aside : Cluster risky
cancelled_aside = record { system = stopped; running = task other_task 0 waiting ∷ [] }

stopped-IsCancelled : IsCancelled "r1" stopped.db
unfolding cancel_review
stopped-IsCancelled = (set_cancelled 1100 queued_review, refl, refl)

Moves-IsCancelled_example :
    IsCancelled "r1" (move_in risky fernet uuid in_order 1300 0 cancelled_aside).system.db
Moves-IsCancelled_example =
    Moves-IsCancelled risky fernet uuid settings "r1" cancelled_aside _
      (then stay (moved in_order 1300 0)) (tt, tt) (refl, tt) stopped-IsCancelled
