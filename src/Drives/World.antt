-- ===== src/Drives/World.antt =====
-- A lease among other gateways, as steps: the stored record of one drive, the worker that holds or
-- wants the lease, and everybody else. A request may be applied without its reply ever coming, and
-- after the worker has given up waiting.
use fractalbits.Base.Results.{err, ok, ok}
use fractalbits.Base.{ℕ, ◌+◌, ◌^◌, ◌≤◌, ◌<◌, ◌≡◌, ◌≢◌, Bool, true, false, Option, none, some}
use fractalbits.Drives.{Chars, Drive}
use fractalbits.Drives.Lease.{
  Versioned, LeaseWrite, after_uncertain_write, write_lease, renewed, taken,
}

-- What the worker waits for, or what came of it.
pub data Phase : Type 0 where
  starting renewing held given_up : Phase

-- `last` is the highest version given so far, and `applied` the version under which the worker's
-- request was applied, if it was.
pub record World : Type 0 where
  pub store : Option Versioned
  pub last : ℕ
  pub worker : Versioned
  pub phase : Phase
  pub applied : Option ℕ

abbrev pub is_held : Phase → Bool
is_held Phase.starting = false
is_held Phase.renewing = false
is_held Phase.held = true
is_held Phase.given_up = false

abbrev pub is_waiting : Phase → Bool
is_waiting Phase.starting = true
is_waiting Phase.renewing = true
is_waiting Phase.held = false
is_waiting Phase.given_up = false

-- The worker after it has read the record back.
abbrev pub settled : World → LeaseWrite × Versioned → World
settled w (LeaseWrite.landed, handle) = record w { worker = handle; phase = Phase.held }
settled w (LeaseWrite.lost, handle) = record w { worker = handle; phase = Phase.given_up }
settled w (LeaseWrite.unknown, handle) = record w { worker = handle }

-- The steps, with the worker's token. The store gives each version once; nobody else has the token.
pub data Step (me : Chars) : World → World → Type 0 where
  other_write :
      (w : World) (v : ℕ) (d : Drive)
      → w.last < v
      → d.sweep_token ≢ me
      → Step me w (record w { store = some (record { version = v; drive = d }); last = v })
  other_delete : (w : World) → Step me w (record w { store = none })
  applies :
      (w : World) (s : Versioned) (v : ℕ)
      → is_held w.phase ≡ false
      → w.store ≡ some s
      → s.version ≡ w.worker.version
      → w.last < v
      → Step me w (record w {
        store = some (record { version = v; drive = w.worker.drive });
        last = v;
        applied = some v;
      })
  replied :
      (w : World) (v : ℕ)
      → is_waiting w.phase ≡ true
      → w.applied ≡ some v
      → Step me w (settled w (write_lease {E = Unit {0}} (ok v) (err tt) w.worker))
  reads_back :
      (w : World)
      → is_waiting w.phase ≡ true
      → Step me w (settled w (after_uncertain_write {E = Unit {0}} w.worker (ok w.store)))
  renews :
      (w : World) (now : ℕ)
      → is_held w.phase ≡ true
      → w.worker.drive.sweep_heartbeat_ms + 1 < 2 ^ 64
      → Step me w
          (record w { worker = renewed now w.worker; phase = Phase.renewing; applied = none })

pub data Reach (me : Chars) (start : World) : World → Type 0 where
  here : Reach me start start
  next : {w w' : World} → Reach me start w → Step me w w' → Reach me start w'

-- A worker about to take the lease with a new token, from a record that it has read.
abbrev pub IsStart : Chars → World → Type 0
IsStart me w =
    (v : Versioned) × (now : ℕ) × (w.worker ≡ taken now me v)
    × (w.phase ≡ Phase.starting)
    × (w.applied ≡ none)
    × (v.version ≤ w.last)
    × ((s : Versioned) → w.store ≡ some s → (s.version ≤ w.last) × (s.drive.sweep_token ≢ me))
