-- ===== src/Drives/Examples.antt =====
-- Each theorem about leases at a concrete input: a record, a write of the lease that is applied, its
-- reply lost, and a renewal.
use fractalbits.Base.Text.{codes}
use fractalbits.Base.{
  ap, ◌∙◌, ◌≢◌, ℕ, ◌<◌, ◌≡◌, ◌↔◌, ◌⊎◌, inr, true, false, Option, ◌∷◌, refl, none, some, [], arith,
}
use fractalbits.Drives
use fractalbits.Drives.{Chars, Drive}
use fractalbits.Drives.Lease.{
  Versioned, LeaseWrite, after_uncertain_write, taken, renewed, renew, Start, start, registered,
}
use fractalbits.Drives.World.{Phase, World, settled, Step, Reach, IsStart}
use fractalbits.Base.Results.{Result, ok, err}
use fractalbits.Drives.Slots.{HasWorker, start_slot, renew_kept}
use fractalbits.Drives.Fencing.{lease_read_back, lease_fenced}

abbrev me : Chars
me = codes "t1"

abbrev found : Versioned
found = record {
  version = 3;
  drive = Drives.new (codes "id") 5 (codes "d1") [] [] (codes "k") (codes "r");
}

abbrev begin : World
begin = record {
  store = some found;
  last = 3;
  worker = taken 10 me found;
  phase = Phase.starting;
  applied = none;
}

abbrev stored : Versioned
stored = record { version = 4; drive = begin.worker.drive }

abbrev applied_world : World
applied_world = record begin { store = some stored; last = 4; applied = some 4 }

-- The reply of the write is lost, and the first read fails as well.
abbrev answer : Result (Unit {0}) ℕ
answer = err tt

abbrev read : Result (Unit {0}) (Option Versioned)
read = err tt

abbrev renewed_record : Versioned
renewed_record = record (renewed 20 stored) { version = 5 }

not_ours : found.drive.sweep_token ≢ me
unfolding Drives.new
not_ours t = cc

same : (s : Versioned) → begin.store ≡ some s → found ≡ s
same s e = cc

is_start : IsStart me begin
unfolding Drives.new
is_start = (
  found,
  10,
  refl,
  refl,
  refl,
  omega arith,
  λ s e. (ground (arith, e), λ t. not_ours (ap (λ x. x.drive.sweep_token) (same s e) ∙ t)),
)

reach : Reach me begin applied_world
unfolding taken
reach = Reach.next Reach.here (Step.applies begin found 4 refl refl refl (omega arith))

lease_read_back_example :
    ((after_uncertain_write {E = Unit {0}} applied_world.worker (ok applied_world.store)).0
      ≡ LeaseWrite.landed)
    ↔ (applied_world.applied ≡ some stored.version)
lease_read_back_example = lease_read_back me begin applied_world stored is_start reach refl

abbrev held_world : World
held_world =
    settled applied_world
      (after_uncertain_write {E = Unit {0}} applied_world.worker (ok applied_world.store))

abbrev renewing_world : World
renewing_world = record held_world {
  worker = renewed 11 held_world.worker;
  phase = Phase.renewing;
  applied = none;
}

later_renewal : Reach me begin renewing_world
unfolding after_uncertain_write taken Drives.new
later_renewal =
    Reach.next (Reach.next reach (Step.reads_back applied_world refl))
      (Step.renews held_world 11 refl (omega arith))

lease_fenced_example : stored.drive.sweep_token ≡ me
unfolding after_uncertain_write taken Drives.new renewed
lease_fenced_example =
    lease_fenced me begin renewing_world stored is_start later_renewal (inr refl) refl refl

start_slot_example :
    (HasWorker (start 10 me answer read found []).0
      × (registered found.drive.name [] ≡ false)
      × ((start 10 me answer read found []).1 ≡ found.drive.name ∷ []))
    ⊎ (((start 10 me answer read found []).0 ≡ Start.busy)
        × ((start 10 me answer read found []).1 ≡ []))
start_slot_example = start_slot 10 me answer read found []

renewal : renew 20 answer read (ok (some renewed_record) ∷ []) stored ≡ some (true, renewed_record)
unfolding renew taken Drives.new
renewal = refl

renew_kept_example :
    (renewed_record.drive.id ≡ stored.drive.id)
    × (renewed_record.drive.sweep_token ≡ stored.drive.sweep_token)
    × (stored.drive.sweep_heartbeat_ms < renewed_record.drive.sweep_heartbeat_ms)
unfolding taken
renew_kept_example =
    renew_kept 20 answer read (ok (some renewed_record) ∷ []) stored renewed_record (omega arith)
      renewal
