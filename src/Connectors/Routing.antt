-- ===== src/Connectors/Routing.antt =====
-- Which connector a command type and a service reach.
use text.Mathlib.Text.{starts_with}
use internal_portal_ceo_dash.Base.{String, ◌≡◌, ◌≢◌, refl, true, none, some, All}
use internal_portal_ceo_dash.Base.Dict
use internal_portal_ceo_dash.Base.Text.{lower, upper}
use internal_portal_ceo_dash.Connectors.{
  Connector, administration, ma, service_name, supported_command_types, register, register_commands,
  connector_registry, get_by_service, get_by_command, get_command_schema, get_routing_key,
}
use internal_portal_ceo_dash.Connectors.Admin
use internal_portal_ceo_dash.Connectors.Ma

-- what a dispatcher needs for a command type of a connector
abbrev pub IsServed : Connector → String → Type 0
IsServed c t =
    (get_by_command t connector_registry ≡ some c)
    × (get_by_command (lower t) connector_registry ≡ some c)
    × (get_command_schema c t ≢ none)
    × ((resource_type : String)
        → starts_with (get_routing_key c t resource_type) (service_name c) ≡ true)

-- The two registered connectors are found by their names, and each command type that a connector
-- supports is served by that connector alone, however the type is capitalised: the registry finds
-- the connector, the connector has a schema for the payload, and the routing key starts with the
-- service's name, for every resource type.
commands_reach_connector :
    (c : Connector)
    → (get_by_service (service_name c) connector_registry ≡ some c)
      × All (IsServed c) (supported_command_types c)
unfolding get_by_service get_by_command connector_registry register register_commands service_name
    supported_command_types Admin.get_command_schema Ma.get_command_schema Admin.get_routing_key
    Ma.get_routing_key get_command_schema get_routing_key Dict.get Dict.put lower upper
commands_reach_connector administration = (
  refl,
  (
    (refl, refl, λ e. cc, λ s. refl),
    (
      (refl, refl, λ e. cc, λ s. refl),
      (
        (refl, refl, λ e. cc, λ s. refl),
        (
          (refl, refl, λ e. cc, λ s. refl),
          (
            (refl, refl, λ e. cc, λ s. refl),
            ((refl, refl, λ e. cc, λ s. refl), ((refl, refl, λ e. cc, λ s. refl), tt)),
          ),
        ),
      ),
    ),
  ),
)
commands_reach_connector ma = (
  refl,
  (
    (refl, refl, λ e. cc, λ s. refl),
    ((refl, refl, λ e. cc, λ s. refl), ((refl, refl, λ e. cc, λ s. refl), tt)),
  ),
)
