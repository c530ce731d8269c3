-- ===== src/Pg/Watch/Stop.antt =====
-- cmd/execdb/pgwire.go: `stop` returns, and what a client that does not wait loses.
use execdb.Prelude.{ℕ, true, false, ◌∷◌, Bytes, ◌≡◌, refl, ◌∙◌, ◌⊎◌, inl, inr, arith}
use execdb.Pg.Watch.{
  Watch, Watcher, reading, woken, done, Main, querying, stopping, expiring, stopped,
  watch_for_disconnect, choose, Step, sends, hangs_up, reads, read_fails, chooses, closes_stopped,
  sets_deadline, clears_deadline, Steps, no_step, after,
}
use execdb.Pg.Watch.Laws.{Steps-Fine, start-Fine}

before : {u v w : Watch} → Step u v → Steps v w → Steps u w
before step no_step = after no_step step
before step (after steps last) = after (before step steps) last

-- The loop gets behind `stop` with nothing more of the client.
abbrev pub Stops : Watch → Type 0
Stops v =
    (w : Watch) × Steps v w × (w.main ≡ stopped) × (w.arrived ≡ v.arrived) × (w.hung_up ≡ v.hung_up)

done-Stops : (v : Watch) → v.main ≡ expiring → v.watcher ≡ done → Stops v
done-Stops v e d = (_, after no_step (clears_deadline e d), refl, refl, refl)

-- A step of the goroutine or of the loop in front.
step-Stops :
    {u v : Watch} → Step u v → v.arrived ≡ u.arrived → v.hung_up ≡ u.hung_up → Stops v → Stops u
step-Stops step a h (w, steps, e, b, k) = (w, before step steps, e, b ∙ a, k ∙ h)

woken-Stops : (v : Watch) → v.main ≡ expiring → v.watcher ≡ woken → Stops v
woken-Stops v e k = step-Stops (chooses k) refl refl (done-Stops (choose v) e refl)

Watcher-cases : (x : Watcher) → (x ≡ reading) ⊎ (x ≡ woken) ⊎ (x ≡ done)
Watcher-cases reading = inl refl
Watcher-cases woken = inr (inl refl)
Watcher-cases done = inr (inr refl)

expiring-Stops : (v : Watch) → v.main ≡ expiring → v.expired ≡ true → Stops v
expiring-Stops v e x = elim (Watcher-cases v.watcher) [
  | inl r ↦
      step-Stops (read_fails r (inr x)) refl refl
        (woken-Stops (record v { watcher = woken }) e refl)
  | inr (inl k) ↦ woken-Stops v e k
  | inr (inr d) ↦ done-Stops v e d
]

stopping-Stops : (v : Watch) → v.main ≡ stopping → Stops v
stopping-Stops v e =
    step-Stops (sets_deadline e) refl refl
      (expiring-Stops (record v { expired = true; main = expiring }) refl refl)

Main-cases : (x : Main) → (x ≡ querying) ⊎ (x ≡ stopping) ⊎ (x ≡ expiring) ⊎ (x ≡ stopped)
Main-cases querying = inl refl
Main-cases stopping = inr (inl refl)
Main-cases expiring = inr (inr (inl refl))
Main-cases stopped = inr (inr (inr refl))

-- Whatever has happened since the query began, there are steps of the goroutine and of the loop,
-- with the client sending nothing and not hanging up meanwhile, behind which `stop` has returned.
pub Steps-Stops : {v : Watch} → Steps watch_for_disconnect v → Stops v
Steps-Stops {v} steps =
    let f = Steps-Fine steps start-Fine in
    elim (Main-cases v.main) [
      | inl e ↦
          step-Stops (closes_stopped e) refl refl
            (stopping-Stops (record v { closed = true; main = stopping }) refl)
      | inr (inl e) ↦ stopping-Stops v e
      | inr (inr (inl e)) ↦ expiring-Stops v e (f.expiring_expired e)
      | inr (inr (inr e)) ↦ (v, no_step, e, refl, refl)
    ]

-- The channel is closed behind the query only.
querying-closed : {v : Watch} → Steps watch_for_disconnect v → v.main ≡ querying → v.closed ≡ false
querying-closed no_step e = refl
querying-closed (after s (sends b)) e = querying-closed s e
querying-closed (after s hangs_up) e = querying-closed s e
querying-closed (after s (reads b bs r u)) e = querying-closed s e
querying-closed (after s (read_fails r k)) e = querying-closed s e
querying-closed (after s (chooses k)) e = querying-closed s e
querying-closed (after s (closes_stopped k)) e = absurd (ground (arith, e))
querying-closed (after s (sets_deadline k)) e = absurd (ground (arith, e))
querying-closed (after s (clears_deadline k d)) e = absurd (ground (arith, e))

-- Whatever has happened since the query began, as long as it runs, the goroutine is in its read and
-- the client has sent a byte that is unread: there are steps of the goroutine and of the loop,
-- without the client, that cancel the query and get behind `stop` with this byte gone, and no
-- other, for the loop over the messages.
pub Steps-pipelined :
    {v : Watch} (b : ℕ) (bs : Bytes)
    → Steps watch_for_disconnect v
    → v.main ≡ querying
    → v.watcher ≡ reading
    → v.unread ≡ b ∷ bs
    → (w : Watch) × Steps v w
      × (w.main ≡ stopped)
      × (w.hung_up ≡ v.hung_up)
      × (w.cancelled ≡ true)
      × (w.arrived ≡ v.arrived)
      × (w.unread ≡ bs)
Steps-pipelined {v} b bs steps e r u =
    let open_yet = querying-closed steps e in
    let woke = after no_step (reads b bs r u) in
    let chosen = after woke (chooses refl) in
    let closing = after chosen (closes_stopped e) in
    let expired = after closing (sets_deadline refl) in
    (_, after expired (clears_deadline refl refl), refl, refl, ground (arith, open_yet), refl, refl)
