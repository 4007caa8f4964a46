-- ===== src/Drives/Slots.antt =====
-- drive_sweep.rs: the set of the drives that a process sweeps, and what a renewal returns.
use fractalbits.Base.{
  ◌+◌, ◌^◌, ◌<◌, subst, none, some, ℕ, ◌≡◌, refl, ◌⊎◌, inl, inr, true, false, Option, List, [], ◌∷◌,
  arith, Bool-cases,
}
use native.Mathlib.Nat.{mod-eq_of_lt}
use fractalbits.Base.Results.{Result, ok, err}
use fractalbits.Base.Bytes.{bytes_eq→eq, bytes_eq_refl}
use fractalbits.Drives.{Chars, Drive}
use fractalbits.Drives.Lease.{
  Versioned, LeaseWrite, is_lease_of, reconcile_lease, after_uncertain_write, write_lease,
  settle_lease, next_heartbeat, renewed, renew, Start, taken, registered, release, start,
}

release_absent :
    (name : Chars) (running : List Chars)
    → registered name running ≡ false
    → release name running ≡ running
unfolding registered release
release_absent name [] h = refl
release_absent name (n ∷ running) h = ground (arith, h, release_absent name running)

-- A worker has been started for a record.
abbrev pub HasWorker : Start → Type 0
HasWorker (Start.spawned v) = Unit {0}
HasWorker Start.busy = ⊥
HasWorker (Start.settling v) = Unit {0}

-- A request to sweep a drive either starts a worker, adding the drive to the set of those that are
-- swept, where it was not yet; or it is answered as busy and leaves the set as it was; whatever the
-- write of the lease and the read behind it are answered.
pub start_slot :
    {E : Type 0} (now : ℕ) (token : Chars) (put : Result E ℕ) (read : Result E (Option Versioned))
    (v : Versioned) (running : List Chars)
    → (HasWorker (start now token put read v running).0
        × (registered v.drive.name running ≡ false)
        × ((start now token put read v running).1 ≡ v.drive.name ∷ running))
      ⊎ (((start now token put read v running).0 ≡ Start.busy)
          × ((start now token put read v running).1 ≡ running))
unfolding start
start_slot now token put read v running =
    go (write_lease put read (taken now token v)) refl
      (Bool-cases (registered v.drive.name running))
  where
    go :
        (r : LeaseWrite × Versioned)
        → write_lease put read (taken now token v) ≡ r
        → (registered v.drive.name running ≡ true) ⊎ (registered v.drive.name running ≡ false)
        → (HasWorker (start now token put read v running).0
            × (registered v.drive.name running ≡ false)
            × ((start now token put read v running).1 ≡ v.drive.name ∷ running))
          ⊎ (((start now token put read v running).0 ≡ Start.busy)
              × ((start now token put read v running).1 ≡ running))
    go r e (inl f) = inr (rw f (refl, refl))
    go (LeaseWrite.landed, h) e (inr f) = inl (rw f rw e (tt, refl, refl))
    go (LeaseWrite.lost, h) e (inr f) = inr (rw f rw e (refl, removed))
      where
        removed : release v.drive.name (v.drive.name ∷ running) ≡ running
        removed = ground (arith, bytes_eq_refl v.drive.name, release_absent v.drive.name running f)
    go (LeaseWrite.unknown, h) e (inr f) = inl (rw f rw e (tt, refl, refl))

-- The lease that a settled write leaves is the one that was written.
settle_lease_sound :
    {E : Type 0} (reads : List (Result E (Option Versioned))) (v h : Versioned)
    → settle_lease reads v ≡ some (true, h)
    → is_lease_of v.drive h.drive ≡ true
unfolding settle_lease after_uncertain_write reconcile_lease
settle_lease_sound [] v h e = cc
settle_lease_sound (err x ∷ reads) v h e = settle_lease_sound reads v h e
settle_lease_sound (ok none ∷ reads) v h e = cc
settle_lease_sound (ok (some s) ∷ reads) v h e = elim (Bool-cases (is_lease_of v.drive s.drive)) [
  | inl f ↦ ground (arith, e, f)
  | inr f ↦ absurd (ground (arith, e, f))
]

is_lease_of_refl : (d : Drive) → is_lease_of d d ≡ true
unfolding is_lease_of
is_lease_of_refl d = ground (arith, bytes_eq_refl d.id, bytes_eq_refl d.sweep_token)

is_lease_of_sound :
    (written stored : Drive)
    → is_lease_of written stored ≡ true
    → (stored.id ≡ written.id)
      × (stored.sweep_token ≡ written.sweep_token)
      × (stored.sweep_heartbeat_ms ≡ written.sweep_heartbeat_ms)
unfolding is_lease_of
is_lease_of_sound written stored h = (
  bytes_eq→eq stored.id written.id (ground (arith, h)),
  bytes_eq→eq stored.sweep_token written.sweep_token (ground (arith, h)),
  ground (arith, h),
)

renew-lease :
    {E : Type 0} (now : ℕ) (put : Result E ℕ) (read : Result E (Option Versioned))
    (reads : List (Result E (Option Versioned))) (v h : Versioned)
    → renew now put read reads v ≡ some (true, h)
    → is_lease_of (renewed now v).drive h.drive ≡ true
unfolding renew write_lease after_uncertain_write reconcile_lease
renew-lease now (ok version) read reads v h e =
    let same : record (renewed now v) { version = version } ≡ h = cc in
    subst (λ (x : Versioned). is_lease_of (renewed now v).drive x.drive ≡ true) same
      (is_lease_of_refl (renewed now v).drive)
renew-lease now (err x) (err y) reads v h e = settle_lease_sound reads (renewed now v) h e
renew-lease now (err x) (ok none) reads v h e = cc
renew-lease now (err x) (ok (some s)) reads v h e =
    elim (Bool-cases (is_lease_of (renewed now v).drive s.drive)) [
      | inl f ↦ ground (arith, e, f)
      | inr f ↦ absurd (ground (arith, e, f))
    ]

-- With a heartbeat that can be counted on in 64 bits: a renewal that reports the lease as kept,
-- whether its write was answered, found by the read behind it or settled by later reads, leaves a
-- handle on a record with the identity and the token of the one before and a later heartbeat.
pub renew_kept :
    {E : Type 0} (now : ℕ) (put : Result E ℕ) (read : Result E (Option Versioned))
    (reads : List (Result E (Option Versioned))) (v h : Versioned)
    → v.drive.sweep_heartbeat_ms + 1 < 2 ^ 64
    → renew now put read reads v ≡ some (true, h)
    → (h.drive.id ≡ v.drive.id)
      × (h.drive.sweep_token ≡ v.drive.sweep_token)
      × (v.drive.sweep_heartbeat_ms < h.drive.sweep_heartbeat_ms)
unfolding renewed next_heartbeat
renew_kept now put read reads v h small e =
    let (id, token, beat) =
      is_lease_of_sound (renewed now v).drive h.drive (renew-lease now put read reads v h e) in
    (id, token, omega (arith, beat, mod-eq_of_lt small))
