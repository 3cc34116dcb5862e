-- ===== src/Tests/Crash.antt =====
-- The start-up where the Ethernet driver does not open.
use ra6m3_rtic.Prelude.{true, false, [], ◌∷◌}
use ra6m3_rtic.Main.Boot.{Board, Boot}
use ra6m3_rtic.Tests.Startup.{board}
use Prim.Native.Nat.{ℕ}

abbrev unplugged : Board
unplugged = record board { ether_opens = false }

abbrev at_panic : Boot ℕ
at_panic = record {
  initialized = true;
  started = true;
  embassy_started = true;
  reads = 0;
  stamps = 0 ∷ 0 ∷ [];
  spawned = [];
}
