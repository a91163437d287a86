-- ===== src/Gateway/Routing.antt =====
-- What the router of gateway.go promises: availability is what GetGateway accepts, and
-- of the gateways with one name the last that was registered is found.
use shopping_cart_payment.Prelude.{
  ◌≡◌, ◌≢◌, refl, ap, sym, ◌∙◌, All, ◌↔◌, true, false, Option, some, none, List, [], ◌∷◌, ◌++◌,
  arith, Bool-cases, Option-cases, inl, inr,
}
use shopping_cart_payment.Text.{Text, bytes, text_eq, to_lower}
use shopping_cart_payment.Text.Laws.{text_eq_refl, text_eq→eq}
use shopping_cart_payment.Errors.{GoError, Result, ok, err, plain}
use shopping_cart_payment.World.{Env}
use shopping_cart_payment.Gateway.Providers.{PaymentGateway, get_name, is_enabled}
use shopping_cart_payment.Gateway.Router.{
  Router, lookup, insert, register, new_router, get_gateway, is_gateway_available,
}

lookup-insert :
    (key : Text) (g : PaymentGateway) (m : List (Text × PaymentGateway))
    → lookup key (insert key g m) ≡ some g
unfolding lookup insert
lookup-insert key g [] = ground (arith, text_eq_refl key)
lookup-insert key g ((k, h) ∷ rest) = elim (Bool-cases (text_eq k key)) [
  | inl same ↦ rw (insert, same) (rw (lookup, same) refl)
  | inr other ↦ rw (insert, other) (rw (lookup, other) (lookup-insert key g rest))
]

lookup-insert_other :
    (key other : Text) (g : PaymentGateway) (m : List (Text × PaymentGateway))
    → other ≢ key
    → lookup key (insert other g m) ≡ lookup key m
unfolding lookup insert
lookup-insert_other key other g [] apart = elim (Bool-cases (text_eq other key)) [
  | inl same ↦ absurd (apart (text_eq→eq other key same))
  | inr differs ↦ rw differs refl
]
lookup-insert_other key other g ((k, h) ∷ rest) apart = elim (Bool-cases (text_eq k other)) [
  | inl same ↦ elim (Bool-cases (text_eq k key)) [
    | inl too ↦ absurd (apart (sym (text_eq→eq k other same) ∙ text_eq→eq k key too))
    | inr differs ↦ rw (insert, same, differs) refl
  ]
  | inr differs ↦ rw (insert, differs, lookup-insert_other key other g rest apart) refl
]

module _ (env : Env) where
  -- A gateway that is not registered under the name; a nil one is not registered.
  abbrev pub IsOther : Text → Option PaymentGateway → Type 0
  IsOther name none = Unit
  IsOther name (some g) = to_lower env.lower_tables (get_name g) ≢ to_lower env.lower_tables name

  register-append :
      (gs : List (Option PaymentGateway)) (g : PaymentGateway)
      (later : List (Option PaymentGateway)) (m : List (Text × PaymentGateway))
      → register env (gs ++ some g ∷ later) m
        ≡ register env later (insert (to_lower env.lower_tables (get_name g)) g (register env gs m))
  unfolding register
  register-append [] g later m = refl
  register-append (none ∷ gs) g later m = register-append gs g later m
  register-append (some h ∷ gs) g later m =
      register-append gs g later (insert (to_lower env.lower_tables (get_name h)) h m)

  lookup-register_other :
      (name : Text) (later : List (Option PaymentGateway)) (m : List (Text × PaymentGateway))
      → All (IsOther name) later
      → lookup (to_lower env.lower_tables name) (register env later m)
        ≡ lookup (to_lower env.lower_tables name) m
  unfolding register
  lookup-register_other name [] m others = refl
  lookup-register_other name (none ∷ later) m others = lookup-register_other name later m others.1
  lookup-register_other name (some g ∷ later) m others =
      lookup-register_other name later (insert (to_lower env.lower_tables (get_name g)) g m)
        others.1
      ∙ lookup-insert_other (to_lower env.lower_tables name)
          (to_lower env.lower_tables (get_name g)) g m others.0

  -- `IsGatewayAvailable` holds of a name exactly when `GetGateway` returns a gateway for it, and a
  -- gateway that it returns is enabled.
  pub is_gateway_available-get_gateway :
      (r : Router) (name : Text)
      → (is_gateway_available env r name ≡ true)
        ↔ (g : PaymentGateway) × (get_gateway env r name ≡ ok g) × (is_enabled g ≡ true)
  unfolding is_gateway_available get_gateway
  is_gateway_available-get_gateway r name =
      elim (Option-cases (lookup (to_lower env.lower_tables name) r.gateways)) [
        | inl unknown ↦
            rw (is_gateway_available, get_gateway, unknown)
              (λ h. absurd (cc h), λ (g, e, on). absurd (cc e))
        | inr (g, found) ↦ elim (Bool-cases (is_enabled g)) [
          | inl on ↦ (
            λ h. (g, rw (get_gateway, found, on) refl, on),
            λ h. rw (is_gateway_available, found, on) refl,
          )
          | inr off ↦ (
            λ h. absurd (no (rw (is_gateway_available, found, off) at h)),
            λ (h, e, on). absurd (refused (rw (get_gateway, found, off) at e)),
          )
        ]
      ]
    where
      no : false ≡ true → ⊥
      no e = cc e

      refused :
          {e : GoError} {h : PaymentGateway} → ◌≡◌ {A = Result PaymentGateway} (err e) (ok h) → ⊥
      refused e = cc e

  -- `GetGateway` refuses a name that is not available.
  pub get_gateway_unavailable :
      (r : Router) (name : Text)
      → is_gateway_available env r name ≡ false
      → (e : GoError) × (get_gateway env r name ≡ err e)
  unfolding is_gateway_available get_gateway
  get_gateway_unavailable r name h =
      elim (Option-cases (lookup (to_lower env.lower_tables name) r.gateways)) [
        | inl unknown ↦ (plain (bytes "unknown gateway: " ++ name), rw (get_gateway, unknown) refl)
        | inr (g, found) ↦ elim (Bool-cases (is_enabled g)) [
          | inl on ↦ absurd (yes (rw (is_gateway_available, found, on) at h))
          | inr off ↦
              (plain (bytes "gateway is not enabled: " ++ name), rw (get_gateway, found, off) refl)
        ]
      ]
    where
      yes : true ≡ false → ⊥
      yes e = cc e

  -- A router finds an enabled gateway of its list, wherever it stands, under every name that is, in
  -- lower case, that of the gateway, when no gateway later in the list has that name in lower case.
  pub new_router-get_gateway :
      (default : Text) (gs : List (Option PaymentGateway)) (g : PaymentGateway)
      (later : List (Option PaymentGateway)) (name : Text)
      → is_enabled g ≡ true
      → to_lower env.lower_tables name ≡ to_lower env.lower_tables (get_name g)
      → All (IsOther name) later
      → get_gateway env (new_router env default (gs ++ some g ∷ later)) name ≡ ok g
  unfolding new_router get_gateway
  new_router-get_gateway default gs g later name on same others =
      let found : lookup (to_lower env.lower_tables name) (register env (gs ++ some g ∷ later) [])
          ≡ some g =
        ap (lookup (to_lower env.lower_tables name)) (register-append gs g later [])
        ∙ lookup-register_other name later _ others
        ∙ rw same (lookup-insert (to_lower env.lower_tables (get_name g)) g (register env gs [])) in
      rw (get_gateway, found, on) refl
