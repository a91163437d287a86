-- ===== src/Gateway/Router.antt =====
-- go/internal/gateway/gateway.go: the router finds a gateway by its name, in lower case.
use shopping_cart_payment.Prelude.{
  Bool, false, not, Option, none, some, List, [], ◌∷◌, ◌++◌, if◌then◌else◌,
}
use shopping_cart_payment.Text.{Text, bytes, text_eq, is_blank, to_lower}
use shopping_cart_payment.Errors.{Result, ok, err, plain}
use shopping_cart_payment.World.{Env}
use shopping_cart_payment.Gateway.Providers.{PaymentGateway, get_name, is_enabled}

pub record Router : Type 0 where
  pub gateways : List (Text × PaymentGateway)
  pub default_gateway_name : Text

-- `m[k]` and `m[k] = v` on a Go map
unfoldable pub lookup : Text → List (Text × PaymentGateway) → Option PaymentGateway
lookup key [] = none
lookup key ((k, g) ∷ rest) = if text_eq k key then some g else lookup key rest

unfoldable pub insert :
    Text → PaymentGateway → List (Text × PaymentGateway) → List (Text × PaymentGateway)
insert key g [] = (key, g) ∷ []
insert key g ((k, h) ∷ rest) = if text_eq k key then (k, g) ∷ rest else (k, h) ∷ insert key g rest

module _ (env : Env) where
  -- The loop of `NewRouter`; a nil gateway is skipped.
  unfoldable pub register :
      List (Option PaymentGateway) → List (Text × PaymentGateway) → List (Text × PaymentGateway)
  unfolding insert to_lower
  register [] m = m
  register (none ∷ gs) m = register gs m
  register (some g ∷ gs) m = register gs (insert (to_lower env.lower_tables (get_name g)) g m)

  unfoldable pub new_router : Text → List (Option PaymentGateway) → Router
  unfolding register
  new_router default gs = record { gateways = register gs []; default_gateway_name = default }

  abbrev unknown_gateway : Text → Result PaymentGateway
  unknown_gateway name = err (plain (bytes "unknown gateway: " ++ name))

  abbrev not_enabled : Text → Result PaymentGateway
  not_enabled name = err (plain (bytes "gateway is not enabled: " ++ name))

  -- `GetGateway`
  unfoldable pub get_gateway : Router → Text → Result PaymentGateway
  unfolding lookup to_lower
  get_gateway r name = elim (lookup (to_lower env.lower_tables name) r.gateways) [
    | none ↦ unknown_gateway name
    | some g ↦ if not (is_enabled g) then not_enabled name else ok g
  ]

  -- `GetGatewayOrDefault`, with `GetDefaultGateway`
  unfoldable pub get_gateway_or_default : Router → Text → Result PaymentGateway
  unfolding get_gateway is_blank
  get_gateway_or_default r name =
      if is_blank name then get_gateway r r.default_gateway_name else get_gateway r name

  -- `IsGatewayAvailable`
  unfoldable pub is_gateway_available : Router → Text → Bool
  unfolding lookup to_lower
  is_gateway_available r name = elim (lookup (to_lower env.lower_tables name) r.gateways) [
    | none ↦ false
    | some g ↦ is_enabled g
  ]
