-- ===== src/Drives/Fencing.antt =====
-- What a worker knows of its lease, whatever the others do.
use fractalbits.Base.Bytes.{bytes_eq, bytes_eq→eq, bytes_eq_refl}
use fractalbits.Base.{
  ◌+◌, ◌^◌, refl, sym, ap, subst, ◌∙◌, ◌↔◌, ℕ, ◌≤◌, ◌<◌, ◌≡◌, ◌⊎◌, inl, inr, true, Option, none,
  some, arith, Bool-cases,
}
use native.Mathlib.Nat.{mod-eq_of_lt}
use fractalbits.Base.Results.{ok, err}
use fractalbits.Drives.{Chars, Drive}
use fractalbits.Drives.Lease.{
  Versioned, LeaseWrite, is_lease_of, reconcile_lease, after_uncertain_write, write_lease,
  next_heartbeat, renewed, taken,
}
use fractalbits.Drives.World.{Phase, World, is_held, settled, Step, Reach, IsStart}

-- What holds of the stored record.
abbrev IsStored : Chars → World → Versioned → Type 0
IsStored me w s =
    (s.version ≤ w.last)
    × (s.drive.sweep_token ≡ me
        → (s.drive.sweep_heartbeat_ms < w.worker.drive.sweep_heartbeat_ms)
          ⊎ (w.applied ≡ some s.version))
    × (w.applied ≡ some s.version → s.drive ≡ w.worker.drive)
    × (w.phase ≡ Phase.renewing → s.version ≡ w.worker.version → s.drive.sweep_token ≡ me)

abbrev IsStoredIn : Chars → World → Option Versioned → Type 0
IsStoredIn me w none = Unit {0}
IsStoredIn me w (some s) = IsStored me w s

abbrev IsKnown : Chars → World → Type 0
IsKnown me w =
    IsStoredIn me w w.store
    × (w.worker.version ≤ w.last)
    × (w.worker.drive.sweep_token ≡ me)
    × ((v : ℕ) → w.applied ≡ some v → v ≤ w.last)
    × (is_held w.phase ≡ true → w.applied ≡ some w.worker.version)

is_lease_of_sound :
    (written stored : Drive)
    → is_lease_of written stored ≡ true
    → (stored.sweep_token ≡ written.sweep_token)
      × (stored.sweep_heartbeat_ms ≡ written.sweep_heartbeat_ms)
unfolding is_lease_of
is_lease_of_sound written stored h =
    elim (Bool-cases (bytes_eq stored.sweep_token written.sweep_token)) [
      | inl e ↦ (bytes_eq→eq stored.sweep_token written.sweep_token e, ground (arith, e, h))
      | inr e ↦ absurd (ground (arith, e, h))
    ]

is_lease_of_refl : (d : Drive) → is_lease_of d d ≡ true
unfolding is_lease_of
is_lease_of_refl d = ground (arith, bytes_eq_refl d.id, bytes_eq_refl d.sweep_token)

next_heartbeat_lem : (now hb : ℕ) → hb + 1 < 2 ^ 64 → hb < next_heartbeat now hb
unfolding next_heartbeat
next_heartbeat_lem now hb lt = omega (arith, mod-eq_of_lt lt)

module _ (me : Chars) where
  IsStoredIn-map :
      (w w' : World)
      → ((s : Versioned) → IsStored me w s → IsStored me w' s)
      → (o : Option Versioned) → IsStoredIn me w o
      → IsStoredIn me w' o
  IsStoredIn-map w w' f none h = tt
  IsStoredIn-map w w' f (some s) h = f s h

  start-IsKnown : (w : World) → IsStart me w → IsKnown me w
  unfolding taken
  start-IsKnown w (v, now, worker, phase, applied, low, stored) = (
    go w.store refl,
    subst (λ x. x.version ≤ w.last) (sym worker) low,
    ap (λ x. x.drive.sweep_token) worker,
    (λ u e. absurd (cc (e, applied))),
    λ e. absurd (cc (e, ap is_held phase)),
  )
    where
      go : (o : Option Versioned) → w.store ≡ o → IsStoredIn me w o
      go none e = tt
      go (some s) e = (
        (stored s e).0,
        (λ t. absurd ((stored s e).1 t)),
        (λ t. absurd (cc (t, applied))),
        λ t u. absurd (cc (t, phase)),
      )

  -- The write landed exactly if the stored record is the one that the request stored.
  landed_iff :
      (w : World) (s : Versioned)
      → IsStored me w s
      → w.worker.drive.sweep_token ≡ me
      → (is_lease_of w.worker.drive s.drive ≡ true) ↔ (w.applied ≡ some s.version)
  landed_iff w s (_, token, same, _) mine = (
    (λ h.
        let (t, hb) = is_lease_of_sound w.worker.drive s.drive h in
        elim (token (t ∙ mine)) [ inl lt ↦ absurd (omega (arith, lt, hb)) | inr e ↦ e ]),
    λ h.
        subst (λ d. is_lease_of w.worker.drive d ≡ true) (sym (same h))
          (is_lease_of_refl w.worker.drive),
  )

  abbrev read_back : World → Option Versioned → LeaseWrite × Versioned
  read_back w o = after_uncertain_write {E = Unit {0}} w.worker (ok o)

  read_back-IsKnown :
      (w : World) (o : Option Versioned)
      → w.store ≡ o
      → IsStoredIn me w o
      → IsKnown me w
      → IsKnown me (settled w (read_back w o))
  unfolding after_uncertain_write reconcile_lease
  read_back-IsKnown w none e st (_, low, mine, seen, hold) = (
    subst (IsStoredIn me (settled w (LeaseWrite.lost, w.worker))) (sym e) tt,
    low,
    mine,
    seen,
    (λ f. cc),
  )
  read_back-IsKnown w (some s) e st (_, low, mine, seen, hold) =
      elim (Bool-cases (is_lease_of w.worker.drive s.drive)) [
        | inl f ↦
            let done = (landed_iff w s st mine).0 f in
            let result : read_back w (some s) ≡ (LeaseWrite.landed, s) = ground (arith, f) in
            let here : IsStored me (settled w (LeaseWrite.landed, s)) s =
              (st.0, (λ _. inr done), (λ _. refl), λ g _. absurd (cc g)) in
            subst (λ r. IsKnown me (settled w r)) (sym result)
              (
                subst (IsStoredIn me (settled w (LeaseWrite.landed, s))) (sym e) here,
                st.0,
                (is_lease_of_sound w.worker.drive s.drive f).0 ∙ mine,
                seen,
                λ _. done,
              )
        | inr f ↦
            let result : read_back w (some s) ≡ (LeaseWrite.lost, w.worker) = ground (arith, f) in
            let here : IsStored me (settled w (LeaseWrite.lost, w.worker)) s =
              (st.0, st.1, st.2, λ g _. absurd (cc g)) in
            subst (λ r. IsKnown me (settled w r)) (sym result)
              (
                subst (IsStoredIn me (settled w (LeaseWrite.lost, w.worker))) (sym e) here,
                low,
                mine,
                seen,
                λ g. absurd (cc g),
              )
      ]

  renews-IsKnown :
      (w : World) (now : ℕ)
      → is_held w.phase ≡ true
      → w.worker.drive.sweep_heartbeat_ms + 1 < 2 ^ 64
      → IsKnown me w
      → IsKnown me
          (record w { worker = renewed now w.worker; phase = Phase.renewing; applied = none })
  unfolding renewed
  renews-IsKnown w now held small (stored, low, mine, seen, hold) = (
    IsStoredIn-map w after kept w.store stored,
    low,
    mine,
    (λ v e. absurd (cc e)),
    λ e. absurd (cc e),
  )
    where
      after : World
      after = record w { worker = renewed now w.worker; phase = Phase.renewing; applied = none }

      later :
          w.worker.drive.sweep_heartbeat_ms < next_heartbeat now w.worker.drive.sweep_heartbeat_ms
      later = next_heartbeat_lem now w.worker.drive.sweep_heartbeat_ms small

      kept : (s : Versioned) → IsStored me w s → IsStored me after s
      kept s (le, token, same, _) = (
        le,
        (λ t. elim (token t) [
          | inl lt ↦ inl (omega (arith, lt, later))
          | inr e ↦ inl (omega (arith, ap (λ d. d.sweep_heartbeat_ms) (same e), later))
        ]),
        (λ e. absurd (cc e)),
        λ _ e. ap (λ d. d.sweep_token) (same (hold held ∙ ap some (sym e))) ∙ mine,
      )

  Step-IsKnown : {w w' : World} → Step me w w' → IsKnown me w → IsKnown me w'
  unfolding write_lease
  Step-IsKnown (Step.other_write w v d lt other) (stored, low, mine, seen, hold) = (
    (
      omega arith,
      (λ t. absurd (other t)),
      (λ t. absurd (omega (arith, seen v t, lt))),
      λ _ e. absurd (omega (arith, e, low, lt)),
    ),
    omega (arith, low, lt),
    mine,
    (λ u e. omega (arith, seen u e, lt)),
    hold,
  )
  Step-IsKnown (Step.other_delete w) (stored, low, mine, seen, hold) = (tt, low, mine, seen, hold)
  Step-IsKnown (Step.applies w s v free here same lt) (stored, low, mine, seen, hold) = (
    (omega arith, (λ _. inr refl), (λ _. refl), λ _ e. absurd (omega (arith, e, low, lt))),
    omega (arith, low, lt),
    mine,
    (λ u e. ground (arith, e)),
    λ e. absurd (cc (e, free)),
  )
  Step-IsKnown (Step.replied w v waits done) (stored, low, mine, seen, hold) = (
    IsStoredIn-map w (settled w (write_lease {E = Unit {0}} (ok v) (err tt) w.worker))
        (λ s (le, token, same, _). (le, token, same, λ g _. absurd (cc g))) w.store stored,
    seen v done,
    mine,
    seen,
    λ _. done,
  )
  Step-IsKnown (Step.reads_back w waits) known = read_back-IsKnown w w.store refl known.0 known
  Step-IsKnown (Step.renews w now held small) known = renews-IsKnown w now held small known

  Reach-IsKnown : {w w' : World} → IsKnown me w → Reach me w w' → IsKnown me w'
  Reach-IsKnown k Reach.here = k
  Reach-IsKnown k (Reach.next r st) = Step-IsKnown st (Reach-IsKnown k r)

-- From the start of a worker with a new token, in every state that it and the other gateways can
-- reach, whichever requests and replies are lost or late: reading the record back calls the
-- worker's last write landed exactly if the record that is stored then is the one which that write
-- stored, and not one of its earlier writes or another gateway's.
pub lease_read_back :
    (me : Chars) (start w : World) (s : Versioned)
    → IsStart me start
    → Reach me start w
    → w.store ≡ some s
    → ((after_uncertain_write {E = Unit {0}} w.worker (ok w.store)).0 ≡ LeaseWrite.landed)
      ↔ (w.applied ≡ some s.version)
unfolding after_uncertain_write reconcile_lease
lease_read_back me start w s begin reach e =
    let (stored, low, mine, seen, hold) = Reach-IsKnown me (start-IsKnown me start begin) reach in
    let (to_, from) = landed_iff me w s (subst (IsStoredIn me w) e stored) mine in
    (
      (λ h. to_ (elim (Bool-cases (is_lease_of w.worker.drive s.drive)) [
        | inl f ↦ f
        | inr f ↦ absurd (ground (arith, e, f, h))
      ])),
      λ h. ground (arith, e, from h),
    )

-- From the start of a worker with a new token, in every state that it and the other gateways can
-- reach: while the worker holds its lease or renews it, a stored record with the version of the
-- worker's handle bears the worker's token. So the compare-and-set of a renewal never overwrites
-- the lease of another worker, and of workers with different tokens one at most has a handle that
-- is current.
pub lease_fenced :
    (me : Chars) (start w : World) (s : Versioned)
    → IsStart me start
    → Reach me start w
    → (w.phase ≡ Phase.held) ⊎ (w.phase ≡ Phase.renewing)
    → w.store ≡ some s
    → s.version ≡ w.worker.version
    → s.drive.sweep_token ≡ me
lease_fenced me start w s begin reach phase e same =
    let (stored, low, mine, seen, hold) = Reach-IsKnown me (start-IsKnown me start begin) reach in
    let (_, token, equal, renewing) : IsStored me w s = subst (IsStoredIn me w) e stored in
    elim phase [
      | inl h ↦ ap (λ d. d.sweep_token) (equal (hold (ap is_held h) ∙ ap some (sym same))) ∙ mine
      | inr h ↦ renewing h same
    ]
