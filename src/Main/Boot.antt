-- ===== src/Main/Boot.antt =====
-- The state of the start-up (src/main.rs, `init`), and the clock as the start-up sees it
-- (src/mono.rs): the monotonic panics until its timer has been started.
use ra6m3_rtic.Prelude.{ℕ, suc, Bool, true, false, Option, none, some, List, [], ◌∷◌, if◌then◌else◌}
use ra6m3_rtic.Main.Uptime.{uptime_us}

-- The tasks that `init` spawns; two of them get the handle of a socket.
pub data Task (H : Type 0) : Type 0 where
  blinky network_link_poll network_poller : Task H
  http_task mqtt_task : H → Task H

-- What the drivers of FSP answer, one flag for each `expect`; the priority of IEL0 in the NVIC after
-- the Ethernet driver has been opened, by the one before; and what the clock reads.
pub record Board : Type 0 where
  pub ioport_opens : Bool
  pub mono_opens : Bool
  pub mono_starts : Bool
  pub embassy_opens : Bool
  pub embassy_starts : Bool
  pub ether_opens : Bool
  pub callback_is_set : Bool
  pub priority_before : ℕ
  pub priority_after : ℕ
  -- is `trace!` compiled in
  pub traces : Bool
  pub clock : ℕ → ℕ
  pub to_micros : ℕ → ℕ

pub record Boot (H : Type 0) : Type 0 where
  -- `Mono::start` has returned
  pub initialized : Bool
  -- STARTED
  pub started : Bool
  -- the driver of embassy-time has been started
  pub embassy_started : Bool
  -- how often the clock was read
  pub reads : ℕ
  -- the uptimes of the log lines, the latest first
  pub stamps : List ℕ
  pub spawned : List (Task H)

-- How code of the start-up ends; a panic leaves the state as it was then.
pub data Ran (H A : Type 0) : Type 0 where
  returned : A → Boot H → Ran H A
  panicked : Boot H → Ran H A

abbrev pub Init : Type 0 → Type 0 → Type 0
Init H A = Boot H → Ran H A

abbrev pub pure : {H A : Type 0} → A → Init H A
pure a b = returned a b

infixl 5 ◌>>=◌ ◌>>◌
abbrev pub ◌>>=◌ : {H A B : Type 0} → Init H A → (A → Init H B) → Init H B
◌>>=◌ m f b = elim (m b) [ panicked b' ↦ panicked b' | returned a b' ↦ f a b' ]

abbrev pub ◌>>◌ : {H A B : Type 0} → Init H A → Init H B → Init H B
m >> k = m >>= λ _. k

-- `expect`, `unwrap` and `assert_eq`
abbrev pub expect : {H : Type 0} → Bool → Init H (Unit {0})
expect true b = returned tt b
expect false b = panicked b

-- `unwrap` of a result that has a value.
abbrev pub unwrap : {H A : Type 0} → Option A → Init H A
unwrap none b = panicked b
unwrap (some a) b = returned a b

module _ (board : Board) {H : Type 0} where
  -- `Mono::now()`
  unfoldable pub mono_now : Init H ℕ
  mono_now b =
      if b.initialized
      then returned (board.clock b.reads) (record b { reads = suc b.reads })
      else panicked b

  -- `mono::uptime_us`, which tests STARTED before it reads the clock.
  unfoldable pub uptime : Init H ℕ
  unfolding mono_now uptime_us
  uptime b =
      if b.started
      then (do now ← mono_now; pure (uptime_us board.to_micros true now)) b
      else returned (uptime_us board.to_micros false 0) b

  -- A log line: `RttLogger::log` prints the uptime.
  unfoldable pub info : Init H (Unit {0})
  unfolding uptime
  info = do us ← uptime; λ b. returned tt (record b { stamps = us ∷ b.stamps })

  -- `trace!`, which a release build leaves out.
  unfoldable pub trace : Init H (Unit {0})
  unfolding info
  trace = if board.traces then info else pure tt

  -- `mono::start`
  unfoldable pub start_mono : Init H (Unit {0})
  start_mono = do
    expect board.mono_opens
    expect board.mono_starts
    λ b. returned tt (record b { initialized = true })
    λ b. returned tt (record b { started = true })

  -- `embassy_time_driver::start`
  unfoldable pub start_embassy : Init H (Unit {0})
  start_embassy = do
    expect board.embassy_opens
    expect board.embassy_starts
    λ b. returned tt (record b { embassy_started = true })

abbrev pub same : {H : Type 0} → Task H → Task H → Bool
same blinky blinky = true
same (http_task _) (http_task _) = true
same (mqtt_task _) (mqtt_task _) = true
same network_link_poll network_link_poll = true
same network_poller network_poller = true
same _ _ = false

abbrev pub is_spawned : {H : Type 0} → Task H → List (Task H) → Bool
is_spawned t [] = false
is_spawned t (u ∷ us) = elim (same t u) [ true ↦ true | false ↦ is_spawned t us ]

-- `app::…::spawn(…).unwrap()`: a task that runs already is refused.
unfoldable pub spawn : {H : Type 0} → Task H → Init H (Unit {0})
spawn t b =
    if is_spawned t b.spawned
    then panicked b
    else returned tt (record b { spawned = t ∷ b.spawned })
