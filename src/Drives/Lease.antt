-- ===== src/Drives/Lease.antt =====
-- drive_sweep.rs, the lease of a sweep: taking it, renewing it, and what a failed write of it comes
-- to. `E` are the errors of RSS, the store of the records; its answers are arguments.
use fractalbits.Base.Bytes.{bytes_eq}
use fractalbits.Base.{
  ℕ, ◌+◌, ◌%◌, ◌^◌, max, Bool, true, false, ◌&&◌, ◌||◌, Option, none, some, List, [], ◌∷◌, ◌==◌,
  if◌then◌else◌,
}
use fractalbits.Base.Results.{Result, ok, err}
use fractalbits.Drives.{DriveStatus, Chars, Drive}

pub record Versioned : Type 0 where
  pub version : ℕ
  pub drive : Drive

pub data LeaseWrite : Type 0 where
  landed lost unknown : LeaseWrite

unfoldable pub is_lease_of : Drive → Drive → Bool
is_lease_of written stored =
    bytes_eq stored.id written.id
    && bytes_eq stored.sweep_token written.sweep_token
    && (stored.sweep_heartbeat_ms == written.sweep_heartbeat_ms)

unfoldable pub reconcile_lease : Versioned → Option Versioned → Option Versioned
unfolding is_lease_of
reconcile_lease written none = none
reconcile_lease written (some stored) =
    if is_lease_of written.drive stored.drive then some stored else none

module _ {E : Type 0} where
  -- What the write was, and the handle after it.
  unfoldable pub after_uncertain_write :
      Versioned → Result E (Option Versioned) → LeaseWrite × Versioned
  unfolding reconcile_lease
  after_uncertain_write written (ok stored) = elim (reconcile_lease written stored) [
    | some handle ↦ (LeaseWrite.landed, handle)
    | none ↦ (LeaseWrite.lost, written)
  ]
  after_uncertain_write written (err _) = (LeaseWrite.unknown, written)

  -- `put` is the answer to the compare-and-set, with the version stored, and `read` the answer to
  -- the read behind a failed one.
  unfoldable pub write_lease :
      Result E ℕ → Result E (Option Versioned) → Versioned → LeaseWrite × Versioned
  unfolding after_uncertain_write
  write_lease (ok version) read drive = (LeaseWrite.landed, record drive { version = version })
  write_lease (err _) read drive = after_uncertain_write drive read

  -- The reads of the loop; `none` while it still waits behind the last one.
  unfoldable pub settle_lease :
      List (Result E (Option Versioned)) → Versioned → Option (Bool × Versioned)
  unfolding after_uncertain_write
  settle_lease [] drive = none
  settle_lease (read ∷ reads) drive =
      let (result, handle) = after_uncertain_write drive read in
      let more = settle_lease reads handle in
      elim result [
        | LeaseWrite.landed ↦ some (true, handle)
        | LeaseWrite.lost ↦ some (false, handle)
        | LeaseWrite.unknown ↦ more
      ]

-- The heartbeat of a renewal, one of 64 bits.
unfoldable pub next_heartbeat : ℕ → ℕ → ℕ
next_heartbeat now heartbeat = max now ((heartbeat + 1) % 2 ^ 64)

unfoldable pub renewed : ℕ → Versioned → Versioned
unfolding next_heartbeat
renewed now v = record v {
  drive = record v.drive { sweep_heartbeat_ms = next_heartbeat now v.drive.sweep_heartbeat_ms };
}

-- Whether the lease was kept.
unfoldable pub renew :
    {E : Type 0}
    → ℕ
    → Result E ℕ
    → Result E (Option Versioned)
    → List (Result E (Option Versioned))
    → Versioned
    → Option (Bool × Versioned)
unfolding renewed write_lease settle_lease
renew now put read reads v =
    let (result, handle) = write_lease put read (renewed now v) in
    elim result [
      | LeaseWrite.landed ↦ some (true, handle)
      | LeaseWrite.lost ↦ some (false, handle)
      | LeaseWrite.unknown ↦ settle_lease reads handle
    ]

-- The answer to a request, with the record that the worker runs on.
pub data Start : Type 0 where
  spawned : Versioned → Start
  busy : Start
  settling : Versioned → Start

-- The record that takes the lease.
unfoldable pub taken : ℕ → Chars → Versioned → Versioned
taken now token v = record v {
  drive = record v.drive {
    status = DriveStatus.deleting;
    deleting_since_ms = if v.drive.deleting_since_ms == 0 then now else v.drive.deleting_since_ms;
    sweep_heartbeat_ms = now;
    sweep_token = token;
  };
}

-- The names of the drives that this process sweeps.
unfoldable pub registered : Chars → List Chars → Bool
registered name [] = false
registered name (n ∷ running) = bytes_eq n name || registered name running

unfoldable pub release : Chars → List Chars → List Chars
release name [] = []
release name (n ∷ running) =
    let rest = release name running in if bytes_eq n name then rest else n ∷ rest

unfoldable pub start :
    {E : Type 0}
    → ℕ
    → Chars
    → Result E ℕ
    → Result E (Option Versioned)
    → Versioned
    → List Chars
    → Start × List Chars
unfolding taken registered release write_lease
start now token put read v running =
    let name = v.drive.name in
    let (result, handle) = write_lease put read (taken now token v) in
    if registered name running then (Start.busy, running) else elim result [
      | LeaseWrite.landed ↦ (Start.spawned handle, name ∷ running)
      | LeaseWrite.lost ↦ (Start.busy, release name (name ∷ running))
      | LeaseWrite.unknown ↦ (Start.settling handle, name ∷ running)
    ]
