-- ===== src/Snapshot/Ingress.antt =====
-- internal/snapshot/ingress.go: what an Ingress diagnosis needs, and the chain behind it.
use kubewhy.Base.{
  ◌==◌, Bool, not, String, String_eq, List, [], ◌∷◌, Option, none, some, if◌then◌else◌, is_empty,
  any, map,
}
use kubewhy.Base.Int.{ℤ, ℤ_eq, int_text}
use kubewhy.Base.Text.{◌<>◌}
use kubewhy.Base.Time.{Time, Duration, sub}
use kubewhy.Diagnosis.{ResourceRef}
use kubewhy.Snapshot.{Existence, Event}
use kubewhy.Snapshot.Api.{IngressObject, ServiceObject, ServicePort}
use kubewhy.Snapshot.Collection.{Collection}
use kubewhy.Snapshot.Pod.{Pod}
use kubewhy.Snapshot.Service.{EndpointSet}

pub record IngressPort : Type 0 where
  pub name : String
  pub number : ℤ

-- IngressPort.String
unfoldable pub port_text : IngressPort → String
port_text p = if p.name == "" then int_text p.number else p.name

pub record IngressPath : Type 0 where
  pub host : String
  pub path : String
  pub path_type : String
  pub service_name : String
  pub port : IngressPort
  pub is_default : Bool

-- IngressPath.Route
unfoldable pub route : IngressPath → String
route p =
    if p.is_default
    then "(default backend)"
    else (if p.host == "" then "*" else p.host) <> (if p.path == "" then "/" else p.path)

-- IngressPath.Target
unfoldable pub target : IngressPath → String
unfolding port_text
target p = "Service/" <> p.service_name <> ":" <> port_text p.port

pub record IngressService : Type 0 where
  pub name : String
  pub exists : Existence
  pub service : Option ServiceObject
  pub endpoints : EndpointSet
  pub backends : List Pod

-- The ports of a Service that may be nil.
abbrev pub ports_of : Option ServiceObject → List ServicePort
ports_of none = []
ports_of (some s) = s.ports

abbrev pub serves : IngressPort → ServicePort → Bool
serves port p = if port.name == "" then p.port == port.number else p.name == port.name

-- IngressService.HasPort
unfoldable pub has_port : IngressService → IngressPort → Bool
unfolding any
has_port s port = any (serves port) (ports_of s.service)

abbrev port_name : ServicePort → String
port_name p = if p.name == "" then int_text p.port else p.name <> " (" <> int_text p.port <> ")"

-- IngressService.PortNames
unfoldable pub port_names : IngressService → List String
port_names s = map port_name (ports_of s.service)

pub record IngressClass : Type 0 where
  pub name : String
  pub exists : Existence
  pub default_exists : Existence

pub record Ingress : Type 0 where
  pub collection : Collection
  pub ingress : IngressObject
  pub events : List Event
  pub paths : List IngressPath
  pub services : List (String × IngressService)
  pub class : IngressClass
  pub now : Time

-- Ingress.Ref
unfoldable pub ingress_ref : Ingress → ResourceRef
ingress_ref i = record { kind = "Ingress"; namespace = i.ingress.namespace; name = i.ingress.name }

-- Ingress.Age
unfoldable pub ingress_age : Ingress → Duration
unfolding sub
ingress_age i = sub i.now i.ingress.creation_timestamp

-- Ingress.HasAddress
unfoldable pub has_address : Ingress → Bool
has_address i = not (is_empty i.ingress.addresses)

-- Ingress.Address
first_address : List (String × String) → String
first_address [] = ""
first_address ((hostname, ip) ∷ rest) =
    let later = first_address rest in
    if not (hostname == "") then hostname else if not (ip == "") then ip else later

unfoldable pub address : Ingress → String
unfolding first_address
address i = first_address i.ingress.addresses
