-- ===== src/Pg/Watch.antt =====
-- cmd/execdb/pgwire.go: `watchForDisconnect`, beside the query that the connection runs and its client.
pub mod Laws
pub mod Stop
use execdb.Prelude.{ℕ, Bool, true, false, not, ◌||◌, List, [], ◌∷◌, ◌++◌, Bytes, ◌≡◌, ◌⊎◌}

-- Where the goroutine is: in `Read`, before the `select`, at its end.
pub data Watcher : Type 0 where
  reading woken done : Watcher

-- Where the loop over the messages is: in the query, behind each call of `stop`, behind `stop`.
pub data Main : Type 0 where
  querying stopping expiring stopped : Main

-- `arrived` is what the client has sent since the query began, `unread` what of it is to be read,
-- and `taken` what the goroutine has read.
pub record Watch : Type 0 where
  pub arrived : Bytes
  pub unread : Bytes
  pub taken : Bytes
  pub hung_up : Bool
  pub expired : Bool  -- the deadline of reads has passed
  pub closed : Bool  -- the channel `stopped`
  pub cancelled : Bool
  pub watcher : Watcher
  pub main : Main

abbrev pub watch_for_disconnect : Watch
watch_for_disconnect = record {
  arrived = [];
  unread = [];
  taken = [];
  hung_up = false;
  expired = false;
  closed = false;
  cancelled = false;
  watcher = reading;
  main = querying;
}

-- `conn.Read(buf[:])` gets the first byte that is there.
abbrev pub read_byte : ℕ → Bytes → Watch → Watch
read_byte b bs w = record w { unread = bs; taken = w.taken ++ (b ∷ []); watcher = woken }

-- The `select`.
abbrev pub choose : Watch → Watch
choose w = record w { cancelled = w.cancelled || not w.closed; watcher = done }

-- One step of the client, of the goroutine or of the loop.
pub data Step (w : Watch) : Watch → Type 0 where
  sends :
      (b : ℕ) → Step w (record w { arrived = w.arrived ++ (b ∷ []); unread = w.unread ++ (b ∷ []) })
  hangs_up : Step w (record w { hung_up = true })
  reads : (b : ℕ) (bs : Bytes) → w.watcher ≡ reading → w.unread ≡ b ∷ bs → Step w (read_byte b bs w)
  read_fails :
      w.watcher ≡ reading
      → (w.hung_up ≡ true) ⊎ (w.expired ≡ true)
      → Step w (record w { watcher = woken })
  chooses : w.watcher ≡ woken → Step w (choose w)
  closes_stopped : w.main ≡ querying → Step w (record w { closed = true; main = stopping })
  sets_deadline : w.main ≡ stopping → Step w (record w { expired = true; main = expiring })
  clears_deadline :
      w.main ≡ expiring → w.watcher ≡ done → Step w (record w { expired = false; main = stopped })

-- Any number of steps.
pub data Steps : Watch → Watch → Type 0 where
  no_step : {w : Watch} → Steps w w
  after : {u v w : Watch} → Steps u v → Step v w → Steps u w
