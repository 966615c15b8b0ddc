-- ===== src/Connectors.antt =====
-- The connector registry of services/integration/connectors/: the two connectors that the package
-- registers, and their lookup by service and by command type.
pub mod Admin
pub mod Ma
pub mod Shared
pub mod Routing
pub mod Shown
mod Tests
use internal_portal_ceo_dash.Base.{ℕ, String, Option, none, some, List, [], ◌∷◌, ◌++◌, map}
use internal_portal_ceo_dash.Base.Dict
use internal_portal_ceo_dash.Base.Dict.{Dict}
use internal_portal_ceo_dash.Base.Text.{lower, upper}
use internal_portal_ceo_dash.Base.Json.{Json, Fields}
use internal_portal_ceo_dash.Connectors.Admin
use internal_portal_ceo_dash.Connectors.Ma
use internal_portal_ceo_dash.Envelopes.{CommandResultEnvelope, ProjectionEventEnvelope}
use internal_portal_ceo_dash.Tables.{Database}

-- the connector classes
pub data Connector : Type 0 where
  administration ma : Connector

unfoldable pub service_name : Connector → String
service_name administration = Admin.service_name
service_name ma = Ma.service_name

unfoldable pub supported_command_types : Connector → List String
supported_command_types administration = Admin.supported_command_types
supported_command_types ma = Ma.supported_command_types

pub record ConnectorRegistry : Type 0 where
  pub by_service : Dict Connector
  pub by_command : Dict Connector

-- the loop of `register`
unfoldable pub register_commands : Connector → List String → Dict Connector → Dict Connector
register_commands c [] d = d
register_commands c (t ∷ ts) d = register_commands c ts (Dict.put (upper t) c d)

unfoldable pub register : Connector → ConnectorRegistry → ConnectorRegistry
unfolding register_commands service_name supported_command_types
register c r = record {
  by_service = Dict.put (lower (service_name c)) c r.by_service;
  by_command = register_commands c (supported_command_types c) r.by_command;
}

unfoldable pub get_by_service : String → ConnectorRegistry → Option Connector
get_by_service name r = Dict.get (lower name) r.by_service

unfoldable pub get_by_command : String → ConnectorRegistry → Option Connector
get_by_command command_type r = Dict.get (upper command_type) r.by_command

unfoldable pub list_services : ConnectorRegistry → List String
list_services r = Dict.keys r.by_service

unfoldable pub list_command_types : ConnectorRegistry → List String
list_command_types r = Dict.keys r.by_command

-- the registrations that the package makes when it is imported
unfoldable pub connector_registry : ConnectorRegistry
unfolding register
connector_registry =
    register ma (register administration (record { by_service = []; by_command = [] }))

-- the methods that the two classes override
unfoldable pub get_command_schema : Connector → String → Option String
get_command_schema administration = Admin.get_command_schema
get_command_schema ma = Ma.get_command_schema

unfoldable pub get_routing_key : Connector → String → String → String
get_routing_key administration = Admin.get_routing_key
get_routing_key ma = Ma.get_routing_key

unfoldable pub get_affected_query_keys :
    Connector → (Json → String) → String → String → Fields → List String
get_affected_query_keys administration shown command_type resource_id payload =
    Admin.get_affected_query_keys shown command_type resource_id payload
get_affected_query_keys ma shown command_type resource_id payload =
    Ma.get_affected_query_keys resource_id

unfoldable pub handle_command_result : Connector → ℕ → CommandResultEnvelope → Database → Database
handle_command_result administration = Admin.handle_command_result
handle_command_result ma = Ma.handle_command_result

unfoldable pub handle_projection_event :
    Connector → ℕ → ProjectionEventEnvelope → Database → Database
handle_projection_event administration = Admin.handle_projection_event
handle_projection_event ma = Ma.handle_projection_event
