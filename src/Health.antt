-- ===== src/Health.antt =====
-- go/internal/health/health.go: the probes, as the status and the one member of the JSON body.
use shopping_cart_payment.Prelude.{ℕ, Bool, not, List, [], ◌∷◌, if◌then◌else◌}
use shopping_cart_payment.Text.{Text, bytes}
use shopping_cart_payment.Errors.{Result, ok, err}
use shopping_cart_payment.World.{Env, World}
use shopping_cart_payment.Store.Postgres.{ping_pool}

pub record Probe : Type 0 where
  pub status : ℕ
  pub field : Text
  pub value : Text

abbrev pub up : Probe
up = record { status = 200; field = bytes "status"; value = bytes "UP" }

abbrev pub down : Probe
down = record { status = 503; field = bytes "status"; value = bytes "DOWN" }

-- The handler of /actuator/info
abbrev pub info : Probe
info = record { status = 200; field = bytes "app"; value = bytes "payment-service" }

abbrev pub after_ping : Result (Unit {0}) × World → Probe × World
after_ping (ok _, w) = (up, w)
after_ping (err _, w) = (down, w)

-- `readiness`; the flag says whether the handler has a pool.
unfoldable pub readiness : Env → (db : Bool) → World → Probe × World
readiness env db w = if not db then (down, w) else after_ping (ping_pool env w)

-- What `Register` routes to, `ok` for two of its paths.
pub data Check : Type 0 where
  health liveness ready app_info : Check

-- The handler of a check.
unfoldable pub run_check : Env → (db : Bool) → Check → World → Probe × World
unfolding readiness
run_check env db health w = (up, w)
run_check env db liveness w = (up, w)
run_check env db ready w = readiness env db w
run_check env db app_info w = (info, w)

-- `Register`: the paths, all of GET.
abbrev pub health_routes : List (Text × Check)
health_routes =
    (bytes "/actuator/health", health)
    ∷ (bytes "/actuator/health/liveness", liveness)
    ∷ (bytes "/actuator/health/readiness", ready)
    ∷ (bytes "/actuator/info", app_info)
    ∷ []
