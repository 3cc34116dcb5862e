-- ===== src/Main/Crash.antt =====
-- src/main.rs, `init`, and the panic handler of src/log_ra6m3_setup.rs.
use ra6m3_rtic.Main.Boot.{Boot}
