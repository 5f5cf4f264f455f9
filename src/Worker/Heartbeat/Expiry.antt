-- ===== src/Worker/Heartbeat/Expiry.antt =====
-- How long a worker counts as alive.
use queue_forge.Worker.Heartbeat.{
  heartbeat_key, absent, wrapped, beats, drop_key, direct, stop, Heartbeat, write, interval,
  ping_key, ping, is_alive, start,
}
use queue_forge.Redis.{Redis}
use queue_forge.Base.{
  ap, arith, codes, false, if◌then◌else◌, is_prefix, refl, suc, true, zero, ℕ, ◌*◌, ◌+◌, ◌<◌, ◌≡◌,
  ◌≤◌,
}

module _ (R : Redis) where
  ping-direct :
      (now : ℕ) (h : Heartbeat) (s : R.Store)
      → h.client ≡ direct
      → is_prefix (codes "heartbeat:") h.worker_id ≡ false
      → ping R now h s ≡ R.set_px now (heartbeat_key h.worker_id) (codes "active") 30000 s
  unfolding ping ping_key write
  ping-direct now h s c i = rw (c, i) refl

  -- The last ping, at its time.
  last_ping :
      (n now at : ℕ) (h : Heartbeat) (s : R.Store)
      → h.client ≡ direct
      → is_prefix (codes "heartbeat:") h.worker_id ≡ false
      → at ≡ now + n * interval h
      → (before : R.Store) × (beats R n now h (ping R now h s)
          ≡ R.set_px at (heartbeat_key h.worker_id) (codes "active") 30000 before)
  unfolding beats
  last_ping zero now at h s c i e =
      let same : at ≡ now = omega (arith, e) in (s, rw same (ping-direct now h s c i))
  last_ping (suc n) now at h s c i e =
      last_ping n (now + interval h) at h (ping R now h s) c i (grind arith)

  start-ping :
      (now : ℕ) (h : Heartbeat) (s : R.Store)
      → h.running ≡ false
      → (start R now h s).1 ≡ ping R now h s
  unfolding start
  start-ping now h s r =
      ap
        (λ b.
          let r : Heartbeat × R.Store =
            if b then (h, s) else (record h { running = true }, ping R now h s) in
          r.1)
        r

  -- A worker that has started, has a client of its own and pings on time counts as alive from its
  -- start up to 30 seconds after its last ping, so always, where it was set up with less than 90
  -- seconds. With more it counts as dead before its next ping, though it runs. Its id does not begin
  -- with `heartbeat:`.
  pub beats_keep_alive :
      (n now t : ℕ) (h : Heartbeat) (s : R.Store)
      → h.client ≡ direct
      → h.running ≡ false
      → is_prefix (codes "heartbeat:") h.worker_id ≡ false
      → let s' = beats R n now h (start R now h s).1 in
        (now + n * interval h ≤ t
          → t < now + n * interval h + 30000
          → is_alive R t direct h.worker_id s' ≡ true)
        × (h.ttl_seconds < 90 → interval h < 30000)
        × (90 < h.ttl_seconds
            → (now + n * interval h + 30000 < now + suc n * interval h)
              × (now + n * interval h + 30000 < t → is_alive R t direct h.worker_id s' ≡ false))
  unfolding is_alive interval
  beats_keep_alive n now t h s c r i =
      let at = now + n * interval h in
      let (before, e) = last_ping n now at h s c i refl in
      (
        λ l u. rw (start-ping now h s r, e) (rw (R.get-set_px at 30000 t _ _ before l u) refl),
        λ u. omega arith,
        λ u. (
          grind arith,
          λ late.
              rw (start-ping now h s r, e) (rw (R.get-set_px_late at 30000 t _ _ before late) refl),
        ),
      )

  -- Through the wrapper of Redis one ping is enough for ever: the worker counts as alive at any
  -- later time, until it is stopped, and without a client it never does.
  pub wrapped_never_expires :
      (now t stopped later : ℕ) (h : Heartbeat) (s : R.Store)
      → is_prefix (codes "heartbeat:") h.worker_id ≡ false
      → now ≤ t
      → stopped ≤ later
      → (h.client ≡ wrapped
          → (is_alive R t wrapped h.worker_id (ping R now h s) ≡ true)
            × (is_alive R later wrapped h.worker_id (stop R stopped h (ping R now h s)).1 ≡ false))
        × (is_alive R t absent h.worker_id s ≡ false)
  unfolding is_alive ping ping_key write stop drop_key
  wrapped_never_expires now t stopped later h s i l m = (
    λ c. (rw (c, i, R.get-set now t _ _ s l) refl, rw (c, i, R.get-del stopped later _ _ m) refl),
    refl,
  )
